-- ===== src/P2p/Sync/Watchdog/Claims.antt =====
-- Which failures end a claim: the text of the error decides, and a peer writes part of it.
use vision_core.Prelude.{ℕ, ◌≡◌, refl, true, [], ◌∷◌, ◌++◌, Bool-cases, inl, inr, subst}
use mathlib.Core.Option
use vision_core.Prelude.Text.{Text, text}
use vision_core.P2p.Protocol.{disconnect}
use vision_core.Node.Recovery.{clear}
use vision_core.P2p.Sync.Host.{Host}
use vision_core.P2p.Sync.Fetch.{Answer, refuse, block_answer}
use vision_core.P2p.Sync.Watchdog.{starts_with, contains, fail_claim}

contains-append :
    (needle front s : Text) → contains needle s ≡ true → contains needle (front ++ s) ≡ true
unfolding contains
contains-append needle [] s h = h
contains-append needle (c ∷ front) s h = elim (Bool-cases (starts_with needle (c ∷ front ++ s))) [
  | inl e ↦ rw e refl
  | inr e ↦ rw e (contains-append needle front s h)
]

refuse-injective : {A : Type 0} {a b : Text} → ◌≡◌ {A = Answer A} (refuse a) (refuse b) → a ≡ b
refuse-injective p = cc

-- A peer that refuses a block with a reason of its own that holds the words "sync import rejected"
-- ends the claim that is looked into, as if its branch had been rejected here; any other reason
-- would mark a high risk of a fork.
pub refusal_ends_claim :
    {Db : Type 0} (now : ℕ) (reason e : Text) (h : Host Db)
    → block_answer (disconnect reason) ≡ refuse e
    → contains (text "sync import rejected") reason ≡ true
    → (fail_claim now e h).recovery ≡ Option.map clear h.recovery
unfolding block_answer fail_claim
refusal_ends_claim now reason e h p c =
    let said =
      contains-append (text "sync import rejected") (text "peer rejected block request: ") reason
        c in
    let named : contains (text "sync import rejected") e ≡ true =
      subst (λ s. contains (text "sync import rejected") s ≡ true) (refuse-injective p) said in
    rw named refl
