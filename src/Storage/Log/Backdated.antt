-- ===== src/Storage/Log/Backdated.antt =====
-- An event that is dated before the first month of the log.
use Prim.Native.Nat.{Ordering}
use shiroe.Prelude.{
  String, true, false, List, ◌∷◌, ◌≡◌, refl, inl, inr, arith, ◌==◌, Bool-cases, string_eq, contains,
  ◌≢◌,
}
use shiroe.Prelude.Months.{Month, Files, lex, add_line, month_of}
use shiroe.Storage.Envelope.{
  Body, Envelope, Request, chain_break, good, fail, genesis, privacy_classes, known_event_types,
  validate_envelope,
}
use shiroe.Storage.Log.{
  LogState, events, seal, write_line, write_head, write_row, append, check_link, walk_chain,
  verify_chain,
}
use shiroe.Storage.Log.Sound.{IsSound, seal-valid, load_head-IsLoaded}
use shiroe.Storage.Log.Appends.{append_at}

module _ (hash_of : Body → String) (scrub : String → String) where
  check_link-break :
      (prev : String) (env : Envelope)
      → validate_envelope env.body false ≡ good tt
      → env.body.previous_hash ≢ prev
      → check_link hash_of prev env ≡ fail (chain_break env.body.event_id)
  unfolding check_link
  check_link-break prev env v n = elim (Bool-cases (env.body.previous_hash == prev)) [
    | inl t ↦ absurd (n ((string_eq.test_iff env.body.previous_hash prev).0 t))
    | inr t ↦ ground arith
  ]

  verify_chain-break :
      (s : LogState) (env : Envelope) (envs : List Envelope)
      → events s ≡ env ∷ envs
      → check_link hash_of genesis env ≡ fail (chain_break env.body.event_id)
      → verify_chain hash_of s ≡ fail (chain_break env.body.event_id)
  unfolding verify_chain walk_chain
  verify_chain-break s env envs e c =
      let w : walk_chain hash_of genesis (events s) ≡ fail (chain_break env.body.event_id) =
        rw e (rw (c, walk_chain) refl) in
      rw (w, verify_chain) refl

  -- An append of an accepted event that is dated in a month before the first one of a sound log, which
  -- has events, answers that it is done, and the chain does not verify from then on.
  pub append-backdated :
      (s : LogState) (last : String) (request : Request) (month : Month) (old : List Envelope)
      (files : Files Envelope)
      → IsSound hash_of s last
      → last ≢ genesis
      → contains privacy_classes request.privacy_class ≡ true
      → contains known_event_types request.event_type ≡ true
      → s.files ≡ (month, old) ∷ files
      → lex (month_of request.timestamp) month ≡ Ordering.lt
      → let env = seal hash_of scrub request last in
        (t : LogState) × (append hash_of scrub s request ≡ (t, good env))
        × (verify_chain hash_of t ≡ fail (chain_break request.event_id))
  unfolding seal write_row write_head write_line add_line
  append-backdated s last request month old files sound n p k shape before =
      let env = seal hash_of scrub request last in
      let (t, e, (f, r, h, o)) = load_head-IsLoaded hash_of s last sound in
      let new = write_row (write_head (write_line t env) env) env in
      let v : events new ≡ env ∷ events s = rw (f, shape) (rw (before, add_line) refl) in
      (
        new,
        append_at hash_of scrub s t last request e (seal-valid hash_of scrub request last true p k),
        verify_chain-break new env (events s) v
            (check_link-break genesis env (seal-valid hash_of scrub request last false p k) n),
      )
