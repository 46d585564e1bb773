-- ===== src/Storage/Log/Sound.antt =====
-- What a log must be for its next event to continue it, and that an append, a restart and a crash
-- between the writes of an append keep it so.
use mathlib.Core.List.{Memᴰ}
use mathlib.Core.List.Memᴰ
use shiroe.Prelude.{
  String, Bool, true, false, Option, none, some, List, [], ◌∷◌, ◌++◌, ◌≡◌, refl, ◌∙◌, subst, ◌⊎◌,
  inl, inr, arith, ◌==◌, Bool-cases, string_eq, ⊎_elim, contains, contains_iff, Option-cases,
}
use shiroe.Prelude.Months.{month_of, IsLatest, IsSorted}
use shiroe.Prelude.Months.Latest.{lines-add_line, add_line-IsSorted}
use shiroe.Storage.Envelope.{
  Body, Envelope, Request, good, genesis, privacy_classes, known_event_types, validate_envelope,
  prepared,
}
use shiroe.Storage.Log.{
  LogState, events, start, check_link, recover_head, head_or_genesis, load_head, seal, write_line,
  walk_chain,
}
use shiroe.Storage.Log.Chain.{
  Reply-cases, hashes_of, walk_chain-append, check_link_iff, validated_tail-good,
}

-- the head is missing, or one that an earlier state of these events had
abbrev pub IsOldHead : Option String → List Envelope → Type 0
IsOldHead none envs = Unit
IsOldHead (some h) envs = (h ≡ genesis) ⊎ Memᴰ h (hashes_of envs)

mem-hashes_of :
    (h : String) (envs more : List Envelope)
    → Memᴰ h (hashes_of envs)
    → Memᴰ h (hashes_of (envs ++ more))
unfolding hashes_of
mem-hashes_of h [] more m = absurd (Memᴰ.not-nil m)
mem-hashes_of h (env ∷ envs) more m =
    ⊎_elim Memᴰ.head (λ r. Memᴰ.tail (mem-hashes_of h envs more r)) (Memᴰ.cases_cons m)

hashes_of-newest :
    (envs : List Envelope) (env : Envelope) → Memᴰ env.hash (hashes_of (envs ++ env ∷ []))
unfolding hashes_of
hashes_of-newest [] env = Memᴰ.head refl
hashes_of-newest (e ∷ envs) env = Memᴰ.tail (hashes_of-newest envs env)

module _ (hash_of : Body → String) where
  -- The chain ends at `last`, and what is known of the head fits it.
  pub record IsSound (s : LogState) (last : String) : Type 0 where
    pub sorted : IsSorted s.files
    pub chain : walk_chain hash_of genesis (events s) ≡ good last
    pub old : IsOldHead s.head (events s)
    pub known : s.recovered ≡ true → head_or_genesis s ≡ last

  -- A state of which the head is known to be the last hash.
  abbrev pub IsLoaded : LogState → LogState → String → Type 0
  IsLoaded s t last =
      (t.files ≡ s.files)
      × (t.recovered ≡ true)
      × (head_or_genesis t ≡ last)
      × IsOldHead t.head (events s)

  pub last-mem :
      (prev last : String) (envs : List Envelope)
      → walk_chain hash_of prev envs ≡ good last
      → (last ≡ prev) ⊎ Memᴰ last (hashes_of envs)
  unfolding walk_chain hashes_of
  last-mem prev last [] h = inl (ground arith)
  last-mem prev last (env ∷ envs) h = elim (Reply-cases (check_link hash_of prev env)) [
    | inl (u, p) ↦
        inr (⊎_elim Memᴰ.head Memᴰ.tail (last-mem env.hash last envs (rw (p, walk_chain) at h)))
    | inr (e, p) ↦ ground arith
  ]

  recover_head-IsLoaded :
      (s : LogState) (last : String)
      → walk_chain hash_of genesis (events s) ≡ good last
      → IsOldHead s.head (events s)
      → (t : LogState) × (recover_head hash_of s ≡ (t, good tt))
        × (t.files ≡ s.files)
        × (head_or_genesis t ≡ last)
        × IsOldHead t.head (events s)
  unfolding recover_head head_or_genesis hashes_of
  recover_head-IsLoaded s last w o =
      let (found, v, l, m) = validated_tail-good hash_of start (events s) last w in
      elim (Option-cases s.head) [
        | inl p ↦ elim (Bool-cases (found.hash == genesis)) [
          | inl q ↦
              (s, ground arith, refl, ground (arith, string_eq.test_iff found.hash genesis), o)
          | inr q ↦ (
            record s { head = some found.hash },
            ground arith,
            refl,
            l,
            rw l (last-mem genesis last (events s) w),
          )
        ]
        | inr (h, p) ↦ elim (Bool-cases (h == found.hash)) [
          | inl q ↦ (s, ground arith, refl, ground (arith, string_eq.test_iff h found.hash), o)
          | inr q ↦
              let o' : (h ≡ genesis) ⊎ Memᴰ h (hashes_of (events s)) =
                subst (λ k. IsOldHead k (events s)) p o in
              let new : LogState = record s { head = some found.hash } in
              let fits : IsOldHead (some found.hash) (events s) =
                rw l (last-mem genesis last (events s) w) in
              elim (Bool-cases (h == genesis)) [
                | inl g ↦ (new, ground arith, refl, l, fits)
                | inr g ↦
                    let c : contains found.hashes h ≡ true = (contains_iff found.hashes h).1 (
                      (m h).1 (
                        inr (
                          ⊎_elim (λ e. ground (arith, string_eq.test_iff h genesis)) (λ k. k)
                            o'))) in
                    (new, ground arith, refl, l, fits)
              ]
        ]
      ]

  pub load_head-IsLoaded :
      (s : LogState) (last : String)
      → IsSound s last
      → (t : LogState) × (load_head hash_of s ≡ (t, good last)) × IsLoaded s t last
  unfolding load_head head_or_genesis
  load_head-IsLoaded s last sound = elim (Bool-cases s.recovered) [
    | inl r ↦ (s, ground (arith, sound.known r), (refl, r, sound.known r, sound.old))
    | inr r ↦
        let (t, e, f, h, o) = recover_head-IsLoaded s last sound.chain sound.old in
        (record t { recovered = true }, ground arith, (f, refl, h, o))
  ]

  -- A request that is accepted, in a month that no event is later than.
  abbrev pub IsFresh : LogState → Request → Type 0
  IsFresh s request =
      (contains privacy_classes request.privacy_class ≡ true)
      × (contains known_event_types request.event_type ≡ true)
      × IsLatest (month_of request.timestamp) s.files

  pub seal-valid :
      (scrub : String → String) (request : Request) (last : String) (strict : Bool)
      → contains privacy_classes request.privacy_class ≡ true
      → contains known_event_types request.event_type ≡ true
      → validate_envelope (seal hash_of scrub request last).body strict ≡ good tt
  unfolding validate_envelope seal prepared
  seal-valid scrub request last strict p k = ground arith

  -- the chain goes on with the sealed envelope
  seal-chain :
      (scrub : String → String) (request : Request) (last : String)
      → contains privacy_classes request.privacy_class ≡ true
      → contains known_event_types request.event_type ≡ true
      → walk_chain hash_of last (seal hash_of scrub request last ∷ [])
        ≡ good (hash_of (seal hash_of scrub request last).body)
  unfolding walk_chain seal prepared
  seal-chain scrub request last p k =
      let env = seal hash_of scrub request last in
      rw
        (
          check_link_iff hash_of last env (seal-valid scrub request last false p k) refl refl,
          walk_chain,
        )
        refl

  -- the events after the line of a fresh request
  pub line-chain :
      (scrub : String → String) (s t : LogState) (last : String) (request : Request)
      → IsSound s last
      → IsFresh s request
      → t.files ≡ s.files
      → let env = seal hash_of scrub request last in
        IsSorted (write_line t env).files
        × (events (write_line t env) ≡ events s ++ env ∷ [])
        × (walk_chain hash_of genesis (events (write_line t env)) ≡ good env.hash)
  unfolding write_line seal
  line-chain scrub s t last request sound fresh f =
      let env = seal hash_of scrub request last in
      let e : events (write_line t env) ≡ events s ++ env ∷ [] =
        rw f (lines-add_line (month_of request.timestamp) env s.files sound.sorted fresh.2) in
      (
        rw f (add_line-IsSorted (month_of request.timestamp) env s.files sound.sorted),
        e,
        rw e (
            walk_chain-append hash_of genesis (events s) last env sound.chain
            ∙ seal-chain scrub request last fresh.0 fresh.1),
      )

  pub old-append :
      (head : Option String) (envs : List Envelope) (env : Envelope)
      → IsOldHead head envs
      → IsOldHead head (envs ++ env ∷ [])
  old-append none envs env o = tt
  old-append (some h) envs env (inl o) = inl o
  old-append (some h) envs env (inr o) = inr (mem-hashes_of h envs (env ∷ []) o)

  pub newest :
      (envs : List Envelope) (env : Envelope) → IsOldHead (some env.hash) (envs ++ env ∷ [])
  newest envs env = inr (hashes_of-newest envs env)
