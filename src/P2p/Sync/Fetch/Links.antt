-- ===== src/P2p/Sync/Fetch/Links.antt =====
-- The blocks that a peer answers with, whatever it sends: they are the branch that was asked for.
use vision_core.Prelude.{
  ◌≡◌, ◌⊎◌, refl, true, false, List, [], ◌∷◌, ◌==◌, is_some, Bool-cases, inl, inr, arith,
}
use vision_core.Prelude.Text.{Text, text_eq, text_eq_iff}
use vision_core.Prelude.Map.{Map, insert}
use vision_core.Types.{Block, hash}
use vision_core.Chain.{block_by_hash}
use vision_core.P2p.Sync.Host.{Host, Event}
use vision_core.P2p.Sync.Fetch.{
  Talk, waiting, failed, reached, Answer, ignore, got, refuse, answer_of, block_answer, Look, known,
  loops, ask, look, await_block, fetch_branch,
}

-- The blocks stand one on another, from a block of hash `from` to one of hash `to`.
abbrev pub Links : Text → List Block → Text → Type 0
Links from [] to = from ≡ to
Links from (b ∷ bs) to = (b.header.parent_hash ≡ from) × Links (hash b) bs to

module _ {Db : Type 0} where
  -- The blocks stand on one that the chain has, or start at the genesis.
  abbrev pub Anchored : Host Db → Text → List Block → Type 0
  Anchored h from [] = is_some (block_by_hash h.node.chain from) ≡ true
  Anchored h from (b ∷ bs) =
      (is_some (block_by_hash h.node.chain from) ≡ true) ⊎ (b.header.number ≡ 0)

  -- The outcome of a conversation that fetches the branch of a tip.
  pub data IsFetch (tip : Text) : Talk Db (List Block) → Type 0 where
    pending : (h : Host Db) → IsFetch tip (waiting h)
    refused : (h : Host Db) (e : Text) → IsFetch tip (failed h e)
    branch :
        (from : Text) (blocks : List Block) (h : Host Db) (rest : List (Event Db))
        → Links from blocks tip
        → Anchored h from blocks
        → IsFetch tip (reached blocks h rest)

  look-known :
      (h : Host Db) (current : Text) (seen : Map (Unit {0}))
      → look h current seen ≡ known
      → is_some (block_by_hash h.node.chain current) ≡ true
  unfolding look
  look-known h current seen e = ground arith

  -- One event, where the rest of the loop is a fetch.
  module _ (tip current : Text) (fetched : List Block) (seen : Map (Unit {0})) (h : Host Db)
      (e : Event Db) (events : List (Event Db)) (l : Links current fetched tip)
      (rest : (current' : Text) (fetched' : List Block) (seen' : Map (Unit {0}))
        → Links current' fetched' tip
        → IsFetch tip (await_block current' fetched' seen' (e.others h) events)) where
    await_parent-IsFetch :
        (block : Block) (to : Look)
        → answer_of block_answer e.received ≡ got block
        → text_eq (hash block) current ≡ true
        → (block.header.number == 0) ≡ false
        → look (e.others h) block.header.parent_hash seen ≡ to
        → IsFetch tip (await_block current fetched seen h (e ∷ events))
    unfolding await_block
    await_parent-IsFetch block known p same above q =
        rw (await_block, p, same, above, q)
          (branch block.header.parent_hash (block ∷ fetched) (e.others h) events
            (refl, rw ((text_eq_iff (hash block) current).0 same) l)
            (inl (look-known (e.others h) block.header.parent_hash seen q)))
    await_parent-IsFetch block loops p same above q =
        rw (await_block, p, same, above, q) (refused (e.others h) _)
    await_parent-IsFetch block ask p same above q =
        rw (await_block, p, same, above, q)
          (rest block.header.parent_hash (block ∷ fetched) (insert block.header.parent_hash tt seen)
            (refl, rw ((text_eq_iff (hash block) current).0 same) l))

    await_answer-IsFetch :
        (a : Answer Block)
        → answer_of block_answer e.received ≡ a
        → IsFetch tip (await_block current fetched seen h (e ∷ events))
    unfolding await_block
    await_answer-IsFetch (refuse reason) p = rw (await_block, p) (refused (e.others h) reason)
    await_answer-IsFetch ignore p = rw (await_block, p) (rest current fetched seen l)
    await_answer-IsFetch (got block) p = elim (Bool-cases (text_eq (hash block) current)) [
      | inr other ↦ rw (await_block, p, other) (refused (e.others h) _)
      | inl same ↦ elim (Bool-cases (block.header.number == 0)) [
        | inl first ↦
            rw (await_block, p, same, first)
              (branch block.header.parent_hash (block ∷ fetched) (e.others h) events
                (refl, rw ((text_eq_iff (hash block) current).0 same) l) (inr (ground arith)))
        | inr above ↦
            await_parent-IsFetch block (look (e.others h) block.header.parent_hash seen) p same
              above refl
      ]
    ]

  await_block-IsFetch :
      (tip current : Text) (fetched : List Block) (seen : Map (Unit {0})) (h : Host Db)
      (events : List (Event Db))
      → Links current fetched tip
      → IsFetch tip (await_block current fetched seen h events)
  await_block-IsFetch tip current fetched seen h [] l = unfold await_block in pending h
  await_block-IsFetch tip current fetched seen h (e ∷ events) l =
      await_answer-IsFetch tip current fetched seen h e events l
        (λ c f s k. await_block-IsFetch tip c f s (e.others h) events k)
        (answer_of block_answer e.received) refl

  -- A fetch that ends has the branch of the tip that was asked for: each block is the parent of the
  -- next by its hash, the last one has the hash of the tip, and the first one is the genesis or
  -- stands on a block that the chain has then.
  pub fetch_branch-IsFetch :
      (tip : Text) (h : Host Db) (events : List (Event Db))
      → IsFetch tip (fetch_branch tip h events)
  unfolding fetch_branch
  fetch_branch-IsFetch tip h events = on_look (look h tip []) refl
    where
      on_look : (l : Look) → look h tip [] ≡ l → IsFetch tip (fetch_branch tip h events)
      on_look known p = rw (fetch_branch, p) (branch tip [] h events refl (look-known h tip [] p))
      on_look loops p = rw (fetch_branch, p) (refused h _)
      on_look ask p =
          rw (fetch_branch, p) (await_block-IsFetch tip tip [] (insert tip tt []) h events refl)
