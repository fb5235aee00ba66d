-- ===== src/Node/Dial/Limits.antt =====
-- Which peers are dialled, for any candidates.
use vision_core.Prelude.{
  ◌+◌, ◌≡◌, ◌≢◌, ◌≤◌, refl, ◌∙◌, ap, sym, subst, Bool, true, false, not, ◌&&◌, Option, List, [],
  ◌∷◌, ◌++◌, any, length, length-append, ltb, All, All-append, ok, Result-cases, Bool-cases,
  Option-cases, ◌==◌, inl, inr, ◌⊎◌, arith,
}
use vision_core.Prelude.Text.{Text, text_eq, text_eq_iff, text_eq_refl}
use vision_core.P2p.Peers.{PeerManager, upsert}
use vision_core.P2p.Peers.Inbound.{is_private_like_ip}
use vision_core.P2p.Peers.Dial.{SocketAddr, validate_dial_address}
use vision_core.Node.Dial.{
  Supervisor, target_outbound_peers, schedule, supervise, supervise_all, peer_dial_supervisor,
}

abbrev pub has : Text → List Text → Bool
has a = any (text_eq a)

abbrev pub NoRepeats : List Text → Type 0
NoRepeats [] = Unit
NoRepeats (a ∷ as') = (has a as' ≡ false) × NoRepeats as'

has-append :
    (a b : Text) (as' : List Text) → has a as' ≡ false → a ≢ b → has a (as' ++ b ∷ []) ≡ false
has-append a b [] h n = ground (arith, text_eq_iff a b)
has-append a b (c ∷ cs) h n = ground (arith, has-append a b cs, h)

has-later : (a b : Text) (as' : List Text) → has a as' ≡ true → has a (as' ++ b ∷ []) ≡ true
has-later a b [] h = cc
has-later a b (c ∷ cs) h = ground (arith, has-later a b cs, h)

has-last : (a : Text) (as' : List Text) → has a (as' ++ a ∷ []) ≡ true
has-last a [] = ground (arith, text_eq_refl a)
has-last a (c ∷ cs) = ground (arith, has-last a cs)

NoRepeats-append :
    (a : Text) (as' : List Text) → NoRepeats as' → has a as' ≡ false → NoRepeats (as' ++ a ∷ [])
NoRepeats-append a [] r h = (refl, tt)
NoRepeats-append a (c ∷ cs) r h = (
  has-append c a cs r.0 (ground (arith, h, text_eq_refl a)),
  NoRepeats-append a cs r.1 (ground (arith, h)),
)

module _ (parse_socket : Text → Option SocketAddr) (print_socket : SocketAddr → Text)
    (is_local : SocketAddr → Bool) (allow_private : Bool) where
  -- The address of a socket that may be dialled.
  abbrev pub IsAllowed : Text → Type 0
  IsAllowed a =
      (sock : SocketAddr) × (print_socket sock ≡ a)
      × (sock.port ≢ 0)
      × ((not allow_private && is_private_like_ip sock.ip) ≡ false)
      × (is_local sock ≡ false)

  pub record IsDialling (s : Supervisor) : Type 0 where
    pub same : s.scheduled ≡ s.started
    pub limit : length s.started ≤ target_outbound_peers
    pub fresh : NoRepeats s.started
    pub allowed : All IsAllowed s.started

  -- A candidate that may be dialled is, unless the limit is reached.
  abbrev pub Covers : Supervisor → Text → Type 0
  Covers s candidate =
      (sock : SocketAddr)
      → validate_dial_address parse_socket candidate allow_private ≡ ok sock
      → is_local sock ≡ false
      → (length s.started ≡ target_outbound_peers) ⊎ (has (print_socket sock) s.started ≡ true)

  valid-parts :
      (candidate : Text) (sock : SocketAddr)
      → validate_dial_address parse_socket candidate allow_private ≡ ok sock
      → (sock.port ≢ 0) × ((not allow_private && is_private_like_ip sock.ip) ≡ false)
  unfolding validate_dial_address
  valid-parts candidate sock e = elim (Option-cases (parse_socket candidate)) [
    | inl n ↦ absurd (ground (arith, n, e))
    | inr (a, p) ↦ elim (Bool-cases (a.port == 0)) [
      | inl z ↦ absurd (ground (arith, p, z, e))
      | inr z ↦ elim (Bool-cases (not allow_private && is_private_like_ip a.ip)) [
        | inl r ↦ absurd (ground (arith, p, z, r, e))
        | inr r ↦
            let same : a ≡ sock = ground (arith, p, z, r, e) in
            subst (λ x. (x.port ≢ 0) × ((not allow_private && is_private_like_ip x.ip) ≡ false))
              same (ground (arith, z), r)
      ]
    ]
  ]

  abbrev added : Supervisor → Text → Supervisor
  added s a = record {
    scheduled = s.scheduled ++ a ∷ [];
    peers = upsert s.peers a true;
    started = s.started ++ a ∷ [];
  }

  schedule-cases :
      (s : Supervisor) (a : Text)
      → ((schedule parse_socket print_socket is_local allow_private s a ≡ s)
          × ((has a s.scheduled ≡ true) ⊎ (8 ≤ length s.scheduled)))
        ⊎ ((has a s.scheduled ≡ false)
            × (length s.scheduled + 1 ≤ 8)
            × (schedule parse_socket print_socket is_local allow_private s a ≡ added s a))
  unfolding schedule
  schedule-cases s a = elim (Bool-cases (has a s.scheduled)) [
    | inl e ↦ inl (rw e refl, inl e)
    | inr e ↦ elim (Bool-cases (ltb target_outbound_peers (length s.scheduled + 1))) [
      | inl f ↦ inl (rw (e, f) refl, inr (ground (arith, f)))
      | inr f ↦ inr (e, ground (arith, f), rw (e, f) refl)
    ]
  ]

  abbrev next : Supervisor → Text → Supervisor
  next = supervise parse_socket print_socket is_local allow_private

  abbrev scheduled_next : Supervisor → Text → Supervisor
  scheduled_next = schedule parse_socket print_socket is_local allow_private

  added-IsDialling :
      (s : Supervisor) (a : Text)
      → IsDialling s
      → has a s.scheduled ≡ false
      → length s.scheduled + 1 ≤ 8
      → IsAllowed a
      → IsDialling (added s a)
  added-IsDialling s a d h l ok_a = record {
    same = ap (λ as'. as' ++ a ∷ []) d.same;
    limit =
        let len : length s.scheduled ≡ length s.started = ap length d.same in
        omega (arith, l, len, length-append s.started (a ∷ []));
    fresh = NoRepeats-append a s.started d.fresh (subst (λ as'. has a as' ≡ false) d.same h);
    allowed = All-append IsAllowed s.started (a ∷ []) d.allowed (ok_a, tt);
  }

  schedule-IsDialling :
      (s : Supervisor) (a : Text) → IsDialling s → IsAllowed a → IsDialling (scheduled_next s a)
  schedule-IsDialling s a d ok_a = elim (schedule-cases s a) [
    | inl (e, why) ↦ subst IsDialling (sym e) d
    | inr (h, l, e) ↦ subst IsDialling (sym e) (added-IsDialling s a d h l ok_a)
  ]

  -- Past the step, the address is there or the limit is reached.
  schedule-covers :
      (s : Supervisor) (a : Text)
      → IsDialling s
      → (length (scheduled_next s a).started ≡ target_outbound_peers)
        ⊎ (has a (scheduled_next s a).started ≡ true)
  schedule-covers s a d = elim (schedule-cases s a) [
    | inl (e, inl h) ↦ inr (ap (λ x. has a x.started) e ∙ ap (has a) (sym d.same) ∙ h)
    | inl (e, inr l) ↦
        let len : length s.scheduled ≡ length s.started = ap length d.same in
        inl (ap (λ x. length x.started) e ∙ omega (arith, l, len, d.limit))
    | inr (h, l, e) ↦ inr (ap (λ x. has a x.started) e ∙ has-last a s.started)
  ]

  -- What is covered stays covered.
  schedule-keeps :
      (s : Supervisor) (a b : Text)
      → IsDialling s
      → (length s.started ≡ target_outbound_peers) ⊎ (has b s.started ≡ true)
      → (length (scheduled_next s a).started ≡ target_outbound_peers)
        ⊎ (has b (scheduled_next s a).started ≡ true)
  schedule-keeps s a b d c = elim (schedule-cases s a) [
    | inl (e, why) ↦
        subst (λ x. (length x.started ≡ target_outbound_peers) ⊎ (has b x.started ≡ true)) (sym e) c
    | inr (h, l, e) ↦ elim c [
      | inl full ↦
          let len : length s.scheduled ≡ length s.started = ap length d.same in
          absurd (omega (arith, full, len, l))
      | inr there ↦ inr (ap (λ x. has b x.started) e ∙ has-later b a s.started there)
    ]
  ]

  supervise-cases :
      (s : Supervisor) (c : Text)
      → (next s c ≡ s)
        ⊎ ((sock : SocketAddr) × IsAllowed (print_socket sock)
            × (next s c ≡ scheduled_next s (print_socket sock)))
  unfolding supervise
  supervise-cases s c = elim (Result-cases (validate_dial_address parse_socket c allow_private)) [
    | inr (x, e) ↦ inl (rw (supervise, e) refl)
    | inl (sock, e) ↦ elim (Bool-cases (is_local sock)) [
      | inl l ↦ inl (rw (supervise, e, l) refl)
      | inr l ↦
          let (port, public) = valid-parts c sock e in
          inr (sock, (sock, refl, port, public, l), rw (supervise, e, l) refl)
    ]
  ]

  supervise-IsDialling : (s : Supervisor) (c : Text) → IsDialling s → IsDialling (next s c)
  supervise-IsDialling s c d = elim (supervise-cases s c) [
    | inl e ↦ subst IsDialling (sym e) d
    | inr (sock, ok_a, e) ↦
        subst IsDialling (sym e) (schedule-IsDialling s (print_socket sock) d ok_a)
  ]

  supervise-keeps : (s : Supervisor) (c b : Text) → IsDialling s → Covers s b → Covers (next s c) b
  supervise-keeps s c b d k = elim (supervise-cases s c) [
    | inl e ↦ subst (λ x. Covers x b) (sym e) k
    | inr (sock, ok_a, e) ↦
        subst (λ x. Covers x b) (sym e)
          (λ t v l. schedule-keeps s (print_socket sock) (print_socket t) d (k t v l))
  ]

  supervise-Covers : (s : Supervisor) (c : Text) → IsDialling s → Covers (next s c) c
  unfolding supervise
  supervise-Covers s c d sock v l =
      let e : next s c ≡ scheduled_next s (print_socket sock) = rw (supervise, v, l) refl in
      subst
        (λ x.
          (length x.started ≡ target_outbound_peers) ⊎ (has (print_socket sock) x.started ≡ true))
        (sym e) (schedule-covers s (print_socket sock) d)

  abbrev run : Supervisor → List Text → Supervisor
  run = supervise_all parse_socket print_socket is_local allow_private

  run-keeps :
      (cs : List Text) (s : Supervisor) (b : Text) → IsDialling s → Covers s b → Covers (run s cs) b
  unfolding supervise_all
  run-keeps [] s b d k = k
  run-keeps (c ∷ cs) s b d k =
      run-keeps cs (next s c) b (supervise-IsDialling s c d) (supervise-keeps s c b d k)

  run-both :
      (cs : List Text) (s : Supervisor)
      → IsDialling s
      → IsDialling (run s cs) × All (Covers (run s cs)) cs
  unfolding supervise_all
  run-both [] s d = (d, tt)
  run-both (c ∷ cs) s d =
      let kept = supervise-IsDialling s c d in
      let (all_d, all_c) = run-both cs (next s c) kept in
      (all_d, (run-keeps cs (next s c) c kept (supervise-Covers s c d), all_c))

  -- Whatever candidates arrive, at most eight peers are dialled, none of them twice, each at an address
  -- with a port, that is not the node's own, and that is public unless private ones are allowed; and
  -- each candidate that passes these checks is dialled, unless eight peers are.
  pub peer_dial_supervisor-IsDialling :
      (peers : PeerManager) (candidates : List Text)
      → IsDialling
          (peer_dial_supervisor parse_socket print_socket is_local allow_private peers candidates)
        × All
            (Covers (
              peer_dial_supervisor parse_socket print_socket is_local allow_private peers
                candidates))
            candidates
  unfolding peer_dial_supervisor
  peer_dial_supervisor-IsDialling peers candidates =
      run-both candidates (record { scheduled = []; peers = peers; started = [] })
        (record { same = refl; limit = omega arith; fresh = tt; allowed = tt })
