-- ===== src/Storage/Tests.antt =====
-- A log with two events, under a hash that is read off the id of an event.
use Prim.Native.Nat.{Ordering}
use mathlib.Core.List.{Memᴰ}
use mathlib.Core.List.Memᴰ
use shiroe.Prelude.{
  String, true, false, none, some, [], ◌∷◌, ◌++◌, ◌≡◌, refl, ◌⊎◌, inl, inr, ⊎_elim, arith, contains,
  ◌≢◌, ◌==◌, string_eq, subst, sym,
}
use shiroe.Prelude.Json.{obj, end, field, str}
use shiroe.Prelude.Months.{month_of, lex}
use shiroe.Storage.Envelope.{
  Body, Envelope, Request, LogError, chain_break, good, fail, genesis, schema_id, privacy_classes,
  validate_envelope, hash_envelope, known_event_types,
}
use shiroe.Storage.Log.{
  LogState, events, validated_tail, append, seal, walk_chain, verify_chain, wrote_part, interrupted,
}
use shiroe.Storage.Log.Chain.{hashes_of}
use shiroe.Storage.Log.Sound.{IsSound, IsFresh, IsOldHead}
use shiroe.Storage.Log.Appends.{IsWhole, IsTorn, append-IsSound, interrupted-IsSound}
use shiroe.Storage.Log.Tampered.{HasNoCollision, events-verify_chain, append-ne_sound}
use shiroe.Storage.Log.Backdated.{append-backdated}

abbrev hash_of : Body → String
hash_of body = hash_envelope (λ b. b.event_id) (λ text. text) body

abbrev scrub : String → String
scrub s = s

abbrev request : (event_id timestamp : String) → Request
request event_id timestamp = record {
  event_type = "run.created";
  actor = "planner";
  payload = field "goal" (str "ship") end;
  privacy_class = "internal";
  run_id = some "r1";
  target = none;
  event_id = event_id;
  timestamp = timestamp;
}

abbrev envelope : (event_id timestamp previous_hash hash : String) → Envelope
envelope event_id timestamp previous_hash hash = record {
  body = record {
    schema = schema_id;
    event_id = event_id;
    timestamp = timestamp;
    event_type = "run.created";
    run_id = some "r1";
    actor = "planner";
    target = none;
    payload = obj (field "goal" (str "ship") end);
    privacy_class = "internal";
    previous_hash = previous_hash;
  };
  hash = hash;
}

abbrev first : Envelope
first = envelope "e1" "2026-01-05T10:00:00" genesis "sha256:e1"

abbrev second : Envelope
second = envelope "e2" "2026-02-07T10:00:00" "sha256:e1" "sha256:e2"

-- the last write of the head was lost
abbrev lagging : LogState
lagging = record {
  files = (month_of "2026-01", first ∷ []) ∷ (month_of "2026-02", second ∷ []) ∷ [];
  head = some "sha256:e1";
  recovered = false;
  mirror = first ∷ [];
}

abbrev caught_up : LogState
caught_up = record lagging { head = some "sha256:e2"; mirror = first ∷ second ∷ [] }

-- the same folder, read by another process
abbrev reread : LogState
reread = record caught_up { recovered = true; mirror = [] }

-- the second event was removed
abbrev truncated : LogState
truncated = record caught_up { files = (month_of "2026-01", first ∷ []) ∷ [] }

apart : (a b : String) → (a == b) ≡ false → a ≢ b
apart a b h p = ground (arith, string_eq.test_iff a b)

false-true : false ≡ true → ⊥
false-true h = cc

lagging-IsSound : IsSound hash_of lagging "sha256:e2"
unfolding month_of lex walk_chain hashes_of validate_envelope hash_envelope contains
lagging-IsSound = record {
  sorted = (refl, tt);
  chain = refl;
  old = inr (Memᴰ.head refl);
  known = λ k. absurd (false-true k);
}

next-IsFresh : IsFresh hash_of lagging (request "e3" "2026-02-08T09:00:00")
unfolding month_of lex contains known_event_types
next-IsFresh = (refl, refl, (λ k. cc, (λ k. cc, tt)))

append-IsSound_example :
    let env = seal hash_of scrub (request "e3" "2026-02-08T09:00:00") "sha256:e2" in
    (t : LogState) × (append hash_of scrub lagging (request "e3" "2026-02-08T09:00:00")
      ≡ (t, good env))
    × (events t ≡ events lagging ++ env ∷ [])
    × IsSound hash_of t env.hash
    × (verify_chain hash_of t ≡ good tt)
append-IsSound_example =
    append-IsSound hash_of scrub lagging "sha256:e2" (request "e3" "2026-02-08T09:00:00")
      lagging-IsSound next-IsFresh

interrupted-IsSound_example :
    let env = seal hash_of scrub (request "e3" "2026-02-08T09:00:00") "sha256:e2" in
    let left = interrupted hash_of wrote_part scrub lagging (request "e3" "2026-02-08T09:00:00") in
    IsWhole hash_of scrub (events lagging) "sha256:e2" left
    ⊎ (IsWhole hash_of scrub (events lagging ++ env ∷ []) env.hash left
        ⊎ IsTorn hash_of scrub lagging left)
interrupted-IsSound_example =
    interrupted-IsSound hash_of scrub wrote_part lagging "sha256:e2"
      (request "e3" "2026-02-08T09:00:00") lagging-IsSound next-IsFresh

two_cases :
    (P : Envelope → Type 0)
    → P first
    → P second
    → (x : Envelope) → Memᴰ x (first ∷ second ∷ [])
    → P x
two_cases P a b x m =
    ⊎_elim (λ p. subst P (sym p) a)
      (λ n. ⊎_elim (λ p. subst P (sym p) b) (λ o. absurd (Memᴰ.not-nil o)) (Memᴰ.cases_cons n))
      (Memᴰ.cases_cons m)

caught_up-free : HasNoCollision hash_of (events caught_up) (events caught_up)
unfolding hash_envelope
caught_up-free = (
  λ x y m n.
      two_cases (λ u. hash_of u.body ≡ hash_of y.body → u.body ≡ y.body)
        (two_cases (λ v. hash_of first.body ≡ hash_of v.body → first.body ≡ v.body) (λ h. refl)
          (λ h. absurd (apart "sha256:e1" "sha256:e2" refl h)) y n)
        (two_cases (λ v. hash_of second.body ≡ hash_of v.body → second.body ≡ v.body)
          (λ h. absurd (apart "sha256:e2" "sha256:e1" refl h)) (λ h. refl) y n)
        x m,
  two_cases (λ u. hash_of u.body ≢ genesis) (apart "sha256:e1" genesis refl)
      (apart "sha256:e2" genesis refl),
  two_cases (λ u. hash_of u.body ≢ genesis) (apart "sha256:e1" genesis refl)
      (apart "sha256:e2" genesis refl),
)

caught_up-verify_chain : verify_chain hash_of caught_up ≡ good tt
unfolding verify_chain validate_envelope hash_envelope contains
caught_up-verify_chain = refl

reread-verify_chain : verify_chain hash_of reread ≡ good tt
unfolding verify_chain validate_envelope hash_envelope contains
reread-verify_chain = refl

events-verify_chain_example : events caught_up ≡ events reread
events-verify_chain_example =
    events-verify_chain hash_of caught_up reread "sha256:e2" caught_up-free caught_up-verify_chain
      reread-verify_chain refl refl (λ h. cc) (λ h. cc)

truncated-bad :
    (last : String)
    → walk_chain hash_of genesis (events truncated) ≡ good last
    → (IsOldHead truncated.head (events truncated) → ⊥)
unfolding hashes_of
truncated-bad last w (inl h) = apart "sha256:e2" genesis refl h
truncated-bad last w (inr m) =
    ⊎_elim (apart "sha256:e2" "sha256:e1" refl) (λ n. Memᴰ.not-nil n) (Memᴰ.cases_cons m)

append-ne_sound_example :
    (e : LogError) × (append hash_of scrub truncated (request "e3" "2026-02-08T09:00:00")
      ≡ (truncated, fail e))
append-ne_sound_example =
    append-ne_sound hash_of scrub truncated (request "e3" "2026-02-08T09:00:00") refl truncated-bad

class-known : contains privacy_classes "internal" ≡ true
unfolding contains
class-known = refl

type-known : contains known_event_types "run.created" ≡ true
unfolding contains known_event_types
type-known = refl

earlier : lex (month_of "2025-12-31T23:59:59") (month_of "2026-01") ≡ Ordering.lt
unfolding lex month_of
earlier = refl

append-backdated_example :
    let env = seal hash_of scrub (request "e3" "2025-12-31T23:59:59") "sha256:e2" in
    (t : LogState) × (append hash_of scrub lagging (request "e3" "2025-12-31T23:59:59")
      ≡ (t, good env))
    × (verify_chain hash_of t ≡ fail (chain_break "e3"))
append-backdated_example =
    append-backdated hash_of scrub lagging "sha256:e2" (request "e3" "2025-12-31T23:59:59")
      (month_of "2026-01") (first ∷ []) ((month_of "2026-02", second ∷ []) ∷ []) lagging-IsSound
      (apart "sha256:e2" genesis refl) class-known type-known refl earlier

-- the head that lagged behind is brought up, and the chain goes on from the second event
lagging-append :
    (append hash_of scrub lagging (request "e3" "2026-02-08T09:00:00")).0.head ≡ some "sha256:e3"
unfolding append seal validated_tail validate_envelope hash_envelope contains
lagging-append = refl
