-- ===== src/Storage/Log/Appends.antt =====
-- An append on a sound log: done, or stopped on the way.
use shiroe.Prelude.{
  String, true, none, some, List, [], ◌∷◌, ◌++◌, ◌≡◌, refl, ap, ◌∙◌, ◌⊎◌, inl, inr, arith,
  string_eq, ==_refl,
}
use shiroe.Prelude.Lists.{List-cases}
use shiroe.Prelude.Months.{lines, IsSorted}
use shiroe.Storage.Envelope.{
  Body, Envelope, Request, good, fail, not_json, genesis, validate_envelope,
}
use shiroe.Storage.Log.{
  LogState, events, load_head, seal, write_line, write_head, write_row, reopened, append,
  walk_chain, verify_chain, Progress, wrote_nothing, wrote_line, wrote_head, wrote_row, interrupted,
  append_after, interrupted_after, stopped, head_or_genesis, Left, whole, torn, load_torn,
  append_left, verify_left, start, wrote_part,
}
use shiroe.Storage.Log.Chain.{validated_tail-good}
use shiroe.Storage.Log.Sound.{
  IsSound, IsLoaded, IsFresh, seal-valid, line-chain, old-append, newest, load_head-IsLoaded,
}

module _ (hash_of : Body → String) (scrub : String → String) where
  verify_chain-IsSound :
      (s : LogState) (last : String)
      → IsSound hash_of s last
      → (s.head ≡ none) ⊎ (s.head ≡ some last)
      → verify_chain hash_of s ≡ good tt
  unfolding verify_chain
  verify_chain-IsSound s last sound h = elim (List-cases (events s)) [
    | inl e ↦ ground (arith, sound.chain)
    | inr (env, envs, e) ↦ elim h [
      | inl n ↦ ground (arith, sound.chain)
      | inr n ↦ ground (arith, sound.chain, ==_refl last)
    ]
  ]

  pub append_at :
      (s t : LogState) (last : String) (request : Request)
      → load_head hash_of s ≡ (t, good last)
      → let env = seal hash_of scrub request last in
        validate_envelope env.body true ≡ good tt
        → append hash_of scrub s request
          ≡ (write_row (write_head (write_line t env) env) env, good env)
  unfolding append append_after
  append_at s t last request e v =
      ap (append_after hash_of scrub request) e ∙ rw (v, append_after) refl

  -- An append of an accepted event, in a month that no event of the log is later than, to a sound log
  -- succeeds: it adds the sealed event as the last one, the log is sound again, and the whole chain
  -- verifies.
  pub append-IsSound :
      (s : LogState) (last : String) (request : Request)
      → IsSound hash_of s last
      → IsFresh hash_of s request
      → let env = seal hash_of scrub request last in
        (t : LogState) × (append hash_of scrub s request ≡ (t, good env))
        × (events t ≡ events s ++ env ∷ [])
        × IsSound hash_of t env.hash
        × (verify_chain hash_of t ≡ good tt)
  unfolding append verify_chain write_head write_row write_line
  append-IsSound s last request sound fresh =
      let env = seal hash_of scrub request last in
      let (t, e, (f, r, h, o)) = load_head-IsLoaded hash_of s last sound in
      let (sorted, v, chain) = line-chain hash_of scrub s t last request sound fresh f in
      let new = write_row (write_head (write_line t env) env) env in
      let sound' : IsSound hash_of new env.hash = record {
        sorted = sorted;
        chain = chain;
        old = rw v (newest hash_of (events s) env);
        known = λ k. refl;
      } in
      (
        new,
        append_at s t last request e (seal-valid hash_of scrub request last true fresh.0 fresh.1),
        v,
        sound',
        verify_chain-IsSound new env.hash sound' (inr refl),
      )

  interrupted_at :
      (progress : Progress) (s t : LogState) (last : String) (request : Request)
      → load_head hash_of s ≡ (t, good last)
      → interrupted hash_of progress scrub s request
        ≡ stopped progress t (seal hash_of scrub request last)
  unfolding interrupted interrupted_after
  interrupted_at progress s t last request e =
      ap (interrupted_after hash_of progress scrub request) e

  -- a log whose events end in a torn line: nothing reads it, and nothing is added to it
  abbrev pub IsTorn : LogState → Left → Type 0
  IsTorn s left =
      (u : LogState) × (left ≡ torn u)
      × (events u ≡ events s)
      × (verify_left hash_of left ≡ fail not_json)
      × ((next : Request) → append_left hash_of scrub left next ≡ (left, fail not_json))

  -- a sound log with these events
  abbrev pub IsWhole : List Envelope → (last : String) → Left → Type 0
  IsWhole envs last left =
      (u : LogState) × (left ≡ whole u) × (events u ≡ envs) × IsSound hash_of u last

  load_torn-not_json :
      (s : LogState) (last : String)
      → walk_chain hash_of genesis (events s) ≡ good last
      → load_torn hash_of s ≡ (s, fail not_json)
  unfolding load_torn
  load_torn-not_json s last w =
      let (found, v, l, m) = validated_tail-good hash_of start (events s) last w in
      rw (v, load_torn) refl

  torn-IsTorn :
      (s t : LogState) (last : String)
      → t.files ≡ s.files
      → walk_chain hash_of genesis (events s) ≡ good last
      → IsTorn s (torn (reopened t))
  unfolding append_left verify_left append_after reopened
  torn-IsTorn s t last f w =
      let w' : walk_chain hash_of genesis (events t) ≡ good last = rw f w in
      (
        reopened t,
        refl,
        ap lines f,
        rw (w', verify_left) refl,
        λ next. rw (load_torn-not_json (reopened t) last w', append_left) refl,
      )

  stopped-IsSound :
      (progress : Progress) (s t : LogState) (last : String) (env : Envelope)
      → IsLoaded hash_of s t last
      → IsSound hash_of s last
      → IsSorted (write_line t env).files
        × (events (write_line t env) ≡ events s ++ env ∷ [])
        × (walk_chain hash_of genesis (events (write_line t env)) ≡ good env.hash)
      → IsWhole (events s) last (stopped progress t env)
        ⊎ (IsWhole (events s ++ env ∷ []) env.hash (stopped progress t env)
            ⊎ IsTorn s (stopped progress t env))
  unfolding stopped reopened write_line write_head write_row head_or_genesis
  stopped-IsSound wrote_nothing s t last env (f, r, h, o) sound (sorted, v, chain) = inl (
    reopened t,
    refl,
    ap lines f,
    record { sorted = rw f sound.sorted; chain = rw f sound.chain; old = rw f o; known = λ k. cc },
  )
  stopped-IsSound wrote_part s t last env (f, r, h, o) sound (sorted, v, chain) =
      inr (inr (torn-IsTorn s t last f sound.chain))
  stopped-IsSound wrote_line s t last env (f, r, h, o) sound (sorted, v, chain) = inr (
      inl (
        reopened (write_line t env),
        refl,
        v,
        record {
          sorted = sorted;
          chain = chain;
          old = rw v (old-append hash_of t.head (events s) env o);
          known = λ k. cc;
        },
      ))
  stopped-IsSound wrote_head s t last env (f, r, h, o) sound (sorted, v, chain) = inr (
      inl (
        reopened (write_head (write_line t env) env),
        refl,
        v,
        record {
          sorted = sorted;
          chain = chain;
          old = rw v (newest hash_of (events s) env);
          known = λ k. refl;
        },
      ))
  stopped-IsSound wrote_row s t last env (f, r, h, o) sound (sorted, v, chain) = inr (
      inl (
        reopened (write_row (write_head (write_line t env) env) env),
        refl,
        v,
        record {
          sorted = sorted;
          chain = chain;
          old = rw v (newest hash_of (events s) env);
          known = λ k. refl;
        },
      ))

  -- A process that stops at one of the modelled points of an append of an accepted event, in a month that no event
  -- of the log is later than, to a sound log leaves one of three: a sound log with the events and the last hash
  -- of before; a sound log whose events end with the sealed event, and its hash is the last; or, where the write
  -- of the line was cut so that it is not JSON, the events of before with a torn line behind them, which the next
  -- process refuses loudly: the chain does not verify, and each append fails and changes nothing.
  pub interrupted-IsSound :
      (progress : Progress) (s : LogState) (last : String) (request : Request)
      → IsSound hash_of s last
      → IsFresh hash_of s request
      → let env = seal hash_of scrub request last in
        let left = interrupted hash_of progress scrub s request in
        IsWhole (events s) last left
        ⊎ (IsWhole (events s ++ env ∷ []) env.hash left ⊎ IsTorn s left)
  interrupted-IsSound progress s last request sound fresh =
      let env = seal hash_of scrub request last in
      let (t, e, (f, r, h, o)) = load_head-IsLoaded hash_of s last sound in
      let (sorted, v, chain) = line-chain hash_of scrub s t last request sound fresh f in
      rw (interrupted_at progress s t last request e)
        (stopped-IsSound progress s t last env (f, r, h, o) sound (sorted, v, chain))
