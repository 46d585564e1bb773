-- ===== src/Storage/Log/Tampered.antt =====
-- What the chain of hashes shows of a log that was changed behind the program's back.
use mathlib.Core.List.{Memᴰ}
use mathlib.Core.List.Memᴰ
use shiroe.Prelude.{
  String, Bool, true, false, some, List, [], ◌∷◌, ◌++◌, ◌≡◌, refl, ap, sym, ◌∙◌, ◌⊎◌, inl, inr,
  arith, ◌==◌, string_eq, ⊎_elim, contains, contains_iff, ◌≢◌, Option-cases,
}
use shiroe.Prelude.Lists.{List-cases}
use shiroe.Storage.Envelope.{Body, Envelope, Request, LogError, head_absent, good, fail, genesis}
use shiroe.Storage.Log.{
  LogState, events, start, check_link, recover_head, load_head, append, append_after, load_after,
  walk_chain, verify_chain,
}
use shiroe.Storage.Log.Chain.{
  Reply-cases, hashes_of, validated_tail-good, validated_tail-fail, walk_chain-append,
}
use shiroe.Storage.Log.Sound.{IsOldHead, last-mem}

-- the events from the last one back
reversed : List Envelope → List Envelope
reversed [] = []
reversed (env ∷ envs) = reversed envs ++ env ∷ []

reversed-append :
    (envs : List Envelope) (env : Envelope) → reversed (envs ++ env ∷ []) ≡ env ∷ reversed envs
unfolding reversed
reversed-append [] env = refl
reversed-append (e ∷ envs) env = rw (reversed-append envs env) refl

mem-reversed : (a : Envelope) (envs : List Envelope) → Memᴰ a envs → Memᴰ a (reversed envs)
unfolding reversed
mem-reversed a [] m = absurd (Memᴰ.not-nil m)
mem-reversed a (env ∷ envs) m =
    ⊎_elim (λ p. Memᴰ.append_right (reversed envs) (Memᴰ.head p))
      (λ n. Memᴰ.append_left (env ∷ []) (mem-reversed a envs n)) (Memᴰ.cases_cons m)

reversed_onto : (envs : List Envelope) → (back : List Envelope) × (reversed back ≡ envs)
unfolding reversed
reversed_onto [] = ([], refl)
reversed_onto (env ∷ envs) =
    let (back, p) = reversed_onto envs in
    (back ++ env ∷ [], reversed-append back env ∙ ap (λ xs. env ∷ xs) p)

no : (b : Bool) → (b ≡ true → ⊥) → b ≡ false
no true f = absurd (f refl)
no false f = refl

not_start :
    (h : String) {hs : List String} → Memᴰ h start.hashes ⊎ Memᴰ h hs → (h ≡ genesis) ⊎ Memᴰ h hs
not_start h (inl m) = absurd (Memᴰ.not-nil m)
not_start h (inr m) = inr m

module _ (hash_of : Body → String) where
  walk_chain-prefix :
      (prev : String) (envs : List Envelope) (env : Envelope) (last : String)
      → walk_chain hash_of prev (envs ++ env ∷ []) ≡ good last
      → (mid : String) × (walk_chain hash_of prev envs ≡ good mid)
  unfolding walk_chain
  walk_chain-prefix prev [] env last h = (prev, refl)
  walk_chain-prefix prev (e ∷ envs) env last h = elim (Reply-cases (check_link hash_of prev e)) [
    | inl (u, p) ↦
        let (mid, w) = walk_chain-prefix e.hash envs env last (ground arith) in (mid, ground arith)
    | inr (er, p) ↦ ground arith
  ]

  check_link-good :
      (prev : String) (env : Envelope)
      → check_link hash_of prev env ≡ good tt
      → (env.body.previous_hash ≡ prev) × (hash_of env.body ≡ env.hash)
  unfolding check_link
  check_link-good prev env h = ground (
    arith,
    string_eq.test_iff env.body.previous_hash prev,
    string_eq.test_iff (hash_of env.body) env.hash,
  )

  -- what the last event of a chain is made of
  walk_chain-last :
      (envs : List Envelope) (env : Envelope) (last : String)
      → walk_chain hash_of genesis (envs ++ env ∷ []) ≡ good last
      → (walk_chain hash_of genesis envs ≡ good env.body.previous_hash)
        × (hash_of env.body ≡ last)
        × (env.hash ≡ last)
  unfolding walk_chain
  walk_chain-last envs env last h =
      let (mid, w) = walk_chain-prefix genesis envs env last h in
      let l : walk_chain hash_of mid (env ∷ []) ≡ good last =
        sym (walk_chain-append hash_of genesis envs mid env w) ∙ h in
      elim (Reply-cases (check_link hash_of mid env)) [
        | inl (tt, p) ↦ ground (arith, check_link-good mid env p)
        | inr (er, p) ↦ ground arith
      ]

  -- Between these events the hash tells bodies apart, and from the sentinel.
  abbrev pub HasNoCollision : List Envelope → List Envelope → Type 0
  HasNoCollision xs ys =
      ((x y : Envelope) → Memᴰ x xs → Memᴰ y ys → hash_of x.body ≡ hash_of y.body → x.body ≡ y.body)
      × ((x : Envelope) → Memᴰ x xs → hash_of x.body ≢ genesis)
      × ((y : Envelope) → Memᴰ y ys → hash_of y.body ≢ genesis)

  free_tail :
      (x y : Envelope) (xs ys : List Envelope)
      → HasNoCollision (x ∷ xs) (y ∷ ys)
      → HasNoCollision xs ys
  free_tail x y xs ys (a, b, c) = (
    λ u v m n. a u v (Memᴰ.tail m) (Memᴰ.tail n),
    λ u m. b u (Memᴰ.tail m),
    λ v n. c v (Memᴰ.tail n),
  )

  free_reversed :
      (xs ys : List Envelope) → HasNoCollision (reversed xs) (reversed ys) → HasNoCollision xs ys
  free_reversed xs ys (a, b, c) = (
    λ u v m n. a u v (mem-reversed u xs m) (mem-reversed v ys n),
    λ u m. b u (mem-reversed u xs m),
    λ v n. c v (mem-reversed v ys n),
  )

  same_back :
      (xs ys : List Envelope) (last : String)
      → HasNoCollision xs ys
      → walk_chain hash_of genesis (reversed xs) ≡ good last
      → walk_chain hash_of genesis (reversed ys) ≡ good last
      → xs ≡ ys
  unfolding reversed walk_chain
  same_back [] [] last free v w = refl
  same_back [] (y ∷ ys) last free v w =
      absurd (free.2 y (Memᴰ.head refl) (ground (arith, walk_chain-last (reversed ys) y last w)))
  same_back (x ∷ xs) [] last free v w =
      absurd (free.1 x (Memᴰ.head refl) (ground (arith, walk_chain-last (reversed xs) x last v)))
  same_back (x ∷ xs) (y ∷ ys) last free v w =
      let (vp, vh, ve) = walk_chain-last (reversed xs) x last v in
      let (wp, wh, we) = walk_chain-last (reversed ys) y last w in
      let b : x.body ≡ y.body = free.0 x y (Memᴰ.head refl) (Memᴰ.head refl) (vh ∙ sym wh) in
      let rest : xs ≡ ys =
        same_back xs ys x.body.previous_hash (free_tail x y xs ys free) vp
          (wp ∙ ap (λ k. good k.previous_hash) (sym b)) in
      cc (rest, b, ve, we)

  verify_chain-walk :
      (s : LogState) (h : String)
      → verify_chain hash_of s ≡ good tt
      → s.head ≡ some h
      → events s ≢ []
      → walk_chain hash_of genesis (events s) ≡ good h
  unfolding verify_chain
  verify_chain-walk s h v k ne = elim (Reply-cases (walk_chain hash_of genesis (events s))) [
    | inl (last, w) ↦ elim (List-cases (events s)) [
      | inl e ↦ absurd (ne e)
      | inr (env, envs, e) ↦ ground (arith, string_eq.test_iff h last)
    ]
    | inr (er, w) ↦ ground arith
  ]

  -- Two logs that both verify, both with events and with the same hash in the file of the head, hold
  -- the same events, provided that the hash tells their bodies apart and none has the sentinel's hash.
  pub events-verify_chain :
      (s t : LogState) (h : String)
      → HasNoCollision (events s) (events t)
      → verify_chain hash_of s ≡ good tt
      → verify_chain hash_of t ≡ good tt
      → s.head ≡ some h
      → t.head ≡ some h
      → events s ≢ []
      → events t ≢ []
      → events s ≡ events t
  events-verify_chain s t h free v w p q n m =
      let (xs, x) = reversed_onto (events s) in
      let (ys, y) = reversed_onto (events t) in
      let same =
        same_back xs ys h (free_reversed xs ys (rw (x, y) free))
          (rw x (verify_chain-walk s h v p n)) (rw y (verify_chain-walk t h w q m)) in
      sym x ∙ ap reversed same ∙ y

  recover_head-ne_sound :
      (s : LogState)
      → ((last : String)
          → walk_chain hash_of genesis (events s) ≡ good last
          → (IsOldHead s.head (events s) → ⊥))
      → (e : LogError) × (recover_head hash_of s ≡ (s, fail e))
  unfolding recover_head
  recover_head-ne_sound s bad = elim (Reply-cases (walk_chain hash_of genesis (events s))) [
    | inr (e, w) ↦ (e, rw (validated_tail-fail hash_of start (events s) e w, recover_head) refl)
    | inl (last, w) ↦ elim (Option-cases s.head) [
      | inl n ↦ absurd (bad last w (rw n tt))
      | inr (h, k) ↦
          let (found, v, l, m) = validated_tail-good hash_of start (events s) last w in
          let old : (h ≡ genesis) ⊎ Memᴰ h (hashes_of (events s)) → ⊥ = λ o. bad last w (rw k o) in
          let not_last : (h == found.hash) ≡ false = no (h == found.hash) (λ t. old (
            rw ((string_eq.test_iff h found.hash).0 t, l)
              (last-mem hash_of genesis last (events s) w))) in
          let not_first : (h == genesis) ≡ false =
            no (h == genesis) (λ t. old (inl ((string_eq.test_iff h genesis).0 t))) in
          let not_old : contains found.hashes h ≡ false =
            no (contains found.hashes h)
              (λ t. old (not_start h ((m h).0 ((contains_iff found.hashes h).0 t)))) in
          (head_absent h, ground arith)
    ]
  ]

  append-fail :
      (scrub : String → String) (s : LogState) (request : Request) (e : LogError)
      → s.recovered ≡ false
      → recover_head hash_of s ≡ (s, fail e)
      → append hash_of scrub s request ≡ (s, fail e)
  unfolding append append_after load_head
  append-fail scrub s request e r h =
      let l : load_head hash_of s ≡ (s, fail e) = simp (r, load_head) (ap load_after h) in
      ap (append_after hash_of scrub request) l

  -- An append whose object has not read the log yet, of which the chain is broken or the head names
  -- neither one of its events nor the sentinel, fails and leaves everything as it was.
  pub append-ne_sound :
      (scrub : String → String) (s : LogState) (request : Request)
      → s.recovered ≡ false
      → ((last : String)
          → walk_chain hash_of genesis (events s) ≡ good last
          → (IsOldHead s.head (events s) → ⊥))
      → (e : LogError) × (append hash_of scrub s request ≡ (s, fail e))
  append-ne_sound scrub s request r bad =
      let (e, h) = recover_head-ne_sound s bad in (e, append-fail scrub s request e r h)
