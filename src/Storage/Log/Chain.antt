-- ===== src/Storage/Log/Chain.antt =====
-- What the walks over the lines of a log have in common.
use mathlib.Core.List.{Memᴰ}
use mathlib.Core.List.Memᴰ
use shiroe.Prelude.{
  String, false, List, [], ◌∷◌, ◌++◌, ◌≡◌, refl, ◌⊎◌, inl, inr, arith, string_eq, ◌↔◌, ⊎_elim,
}
use shiroe.Prelude.Lists.{Memᴰ-cons}
use shiroe.Storage.Envelope.{Body, Envelope, LogError, Reply, good, fail, validate_envelope}
use shiroe.Storage.Log.{Tail, check_link, validated_tail, walk_chain}

pub Reply-cases {ℓ} :
    {T : Type ℓ} (r : Reply T) → ((t : T) × (r ≡ good t)) ⊎ ((e : LogError) × (r ≡ fail e))
Reply-cases (good t) = inl (t, refl)
Reply-cases (fail e) = inr (e, refl)

unfoldable pub hashes_of : List Envelope → List String
hashes_of [] = []
hashes_of (env ∷ envs) = env.hash ∷ hashes_of envs

Mem_shift :
    (k : String) (all old later : List String) (h : String)
    → Memᴰ k all ↔ (Memᴰ k (h ∷ old) ⊎ Memᴰ k later)
    → Memᴰ k all ↔ (Memᴰ k old ⊎ Memᴰ k (h ∷ later))
Mem_shift k all old later h m = grind (arith, Memᴰ-cons k h old, Memᴰ-cons k h later)

module _ (hash_of : Body → String) where
  pub walk_chain-append :
      (prev : String) (envs : List Envelope) (last : String) (env : Envelope)
      → walk_chain hash_of prev envs ≡ good last
      → walk_chain hash_of prev (envs ++ env ∷ []) ≡ walk_chain hash_of last (env ∷ [])
  unfolding walk_chain
  walk_chain-append prev [] last env h = ground arith
  walk_chain-append prev (e ∷ envs) last env h = elim (Reply-cases (check_link hash_of prev e)) [
    | inl (u, p) ↦ ground (arith, walk_chain-append e.hash envs last env)
    | inr (er, p) ↦ ground arith
  ]

  pub check_link_iff :
      (prev : String) (env : Envelope)
      → validate_envelope env.body false ≡ good tt
      → env.body.previous_hash ≡ prev
      → hash_of env.body ≡ env.hash
      → check_link hash_of prev env ≡ good tt
  unfolding check_link
  check_link_iff prev env v p h = ground (
    arith,
    (string_eq.test_iff env.body.previous_hash prev).1 p,
    (string_eq.test_iff (hash_of env.body) env.hash).1 h,
  )

  pub validated_tail-good :
      (tail : Tail) (envs : List Envelope) (last : String)
      → walk_chain hash_of tail.hash envs ≡ good last
      → (found : Tail) × (validated_tail hash_of tail envs ≡ good found)
        × (found.hash ≡ last)
        × ((h : String) → Memᴰ h found.hashes ↔ (Memᴰ h tail.hashes ⊎ Memᴰ h (hashes_of envs)))
  unfolding walk_chain validated_tail hashes_of
  validated_tail-good tail [] last h =
      (tail, refl, ground arith, λ k. (inl, ⊎_elim (λ m. m) (λ m. absurd (Memᴰ.not-nil m))))
  validated_tail-good tail (env ∷ envs) last h =
      let next : Tail = record {
        hash = env.hash;
        event_id = env.body.event_id;
        hashes = env.hash ∷ tail.hashes;
      } in
      elim (Reply-cases (check_link hash_of tail.hash env)) [
        | inl (u, p) ↦
            let (found, v, l, m) = validated_tail-good next envs last (rw (p, walk_chain) at h) in
            (
              found,
              rw (p, validated_tail) v,
              l,
              λ k. Mem_shift k found.hashes tail.hashes (hashes_of envs) env.hash (m k),
            )
        | inr (er, p) ↦ ground arith
      ]

  pub validated_tail-fail :
      (tail : Tail) (envs : List Envelope) (e : LogError)
      → walk_chain hash_of tail.hash envs ≡ fail e
      → validated_tail hash_of tail envs ≡ fail e
  unfolding walk_chain validated_tail
  validated_tail-fail tail [] e h = cc
  validated_tail-fail tail (env ∷ envs) e h =
      let next : Tail = record {
        hash = env.hash;
        event_id = env.body.event_id;
        hashes = env.hash ∷ tail.hashes;
      } in
      elim (Reply-cases (check_link hash_of tail.hash env)) [
        | inl (u, p) ↦ ground (arith, validated_tail-fail next envs e)
        | inr (er, p) ↦ ground arith
      ]
