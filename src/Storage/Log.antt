-- ===== src/Storage/Log.antt =====
-- `EventLog` of shiroe/storage/events.py: hash-chained files, one for each month, and the marker of
-- their last event. An `append` runs under the lock on the memory folder, so the operations follow
-- one another. `hash_of` is the hash of a body, `_hash_envelope`.
pub mod Chain
pub mod Sound
pub mod Appends
pub mod Tampered
pub mod Backdated
use shiroe.Prelude.{
  ℕ, zero, suc, String, Bool, true, false, Option, none, some, List, [], ◌∷◌, ◌++◌, contains, ◌==◌,
  string_eq, if◌then◌else◌,
}
use shiroe.Prelude.Text.{codes}
use shiroe.Prelude.Months.{Files, month_of, add_line, lines}
use shiroe.Storage.Envelope.{
  Body, Envelope, Request, LogError, not_json, chain_break, hash_mismatch, head_absent,
  head_mismatch, Reply, good, fail, genesis, validate_envelope, scrub_fields, prepared,
}

-- The folder of the log, what this object knows of it, and the rows of `memory_events`, newest last.
pub record LogState : Type 0 where
  pub files : Files Envelope
  pub head : Option String
  pub recovered : Bool
  pub mirror : List Envelope

-- `iter_events`
abbrev pub events : LogState → List Envelope
events s = lines s.files

-- The hash of the last event, its id, and all hashes.
pub record Tail : Type 0 where
  pub hash : String
  pub event_id : String
  pub hashes : List String

-- before the first event
abbrev pub start : Tail
start = record { hash = genesis; event_id = ""; hashes = [] }

-- `atomic_append(target, ...)`
unfoldable pub write_line : LogState → Envelope → LogState
unfolding add_line month_of
write_line s env = record s { files = add_line (month_of env.body.timestamp) env s.files }

-- `_write_head` after the line
unfoldable pub write_head : LogState → Envelope → LogState
write_head s env = record s { head = some env.hash }

-- `INSERT OR REPLACE INTO memory_events`
unfoldable pub mirror_row : List Envelope → Envelope → List Envelope
mirror_row [] env = env ∷ []
mirror_row (row ∷ rows) env =
    let rest = mirror_row rows env in
    if row.body.event_id == env.body.event_id then rest else row ∷ rest

-- the row and its commit
unfoldable pub write_row : LogState → Envelope → LogState
unfolding mirror_row
write_row s env = record s { mirror = mirror_row s.mirror env }

-- Another process opens the folder.
unfoldable pub reopened : LogState → LogState
reopened s = record s { recovered = false }

-- What of the writes of an `append` is done when the process stops: `atomic_append` of shiroe/lock.py is one
-- write, of which a crash may leave a part, here one that is not JSON. The other writes are done or not.
pub data Progress : Type 0 where
  wrote_nothing wrote_part wrote_line wrote_head wrote_row : Progress

-- A log as a crash leaves it: `torn s` has a part of a line behind the events of `s`.
pub data Left : Type 0 where
  whole torn : LogState → Left

unfoldable pub stopped : Progress → LogState → Envelope → Left
unfolding write_line write_head write_row reopened
stopped wrote_nothing s env = whole (reopened s)
stopped wrote_part s env = torn (reopened s)
stopped wrote_line s env = whole (reopened (write_line s env))
stopped wrote_head s env = whole (reopened (write_head (write_line s env) env))
stopped wrote_row s env = whole (reopened (write_row (write_head (write_line s env) env) env))

-- What the file of the head holds, or the sentinel where it is missing.
unfoldable pub head_or_genesis : LogState → String
head_or_genesis s = elim s.head [ none ↦ genesis | some h ↦ h ]

-- `_load_head` below its `_recover_head`
unfoldable pub load_after : LogState × Reply (Unit {0}) → LogState × Reply String
unfolding head_or_genesis
load_after (s, fail e) = (s, fail e)
load_after (s, good u) = (record s { recovered = true }, good (head_or_genesis s))

module _ (hash_of : Body → String) where
  -- one round of the loop in `_validated_tail` and in `verify_chain`
  unfoldable pub check_link : String → Envelope → Reply (Unit {0})
  check_link prev env = elim (validate_envelope env.body false) [
    | fail e ↦ fail e
    | good u ↦
        if env.body.previous_hash == prev
        then if hash_of env.body == env.hash
          then good tt
          else fail (hash_mismatch env.body.event_id)
        else fail (chain_break env.body.event_id)
  ]

  -- `_validated_tail`
  unfoldable pub validated_tail : Tail → List Envelope → Reply Tail
  unfolding check_link
  validated_tail tail [] = good tail
  validated_tail tail (env ∷ rest) =
      let next =
        validated_tail
          (record {
            hash = env.hash;
            event_id = env.body.event_id;
            hashes = env.hash ∷ tail.hashes;
          })
          rest in
      elim (check_link tail.hash env) [ fail e ↦ fail e | good u ↦ next ]

  -- `_recover_head`
  unfoldable pub recover_head : LogState → LogState × Reply (Unit {0})
  recover_head s = elim (validated_tail start (events s)) [
    | fail e ↦ (s, fail e)
    | good tail ↦ elim s.head [
      | none ↦
          if tail.hash == genesis
          then (s, good tt)
          else (record s { head = some tail.hash }, good tt)
      | some stored ↦
          if stored == tail.hash
          then (s, good tt)
          else if stored == genesis
          then (record s { head = some tail.hash }, good tt)
          else if contains tail.hashes stored
          then (record s { head = some tail.hash }, good tt)
          else (s, fail (head_absent stored))
    ]
  ]

  -- `_load_head`
  unfoldable pub load_head : LogState → LogState × Reply String
  unfolding recover_head load_after
  load_head s = if s.recovered then (s, good (head_or_genesis s)) else load_after (recover_head s)

  -- the envelope that `append` seals on top of a head
  unfoldable pub seal : (String → String) → Request → (head : String) → Envelope
  unfolding prepared
  seal scrub request head =
      let body = prepared (record request { payload = scrub_fields scrub request.payload }) head in
      record { body = body; hash = hash_of body }

  -- `append` below its `_load_head`
  unfoldable pub append_after :
      (String → String) → Request → LogState × Reply String → LogState × Reply Envelope
  unfolding seal write_line write_head write_row
  append_after scrub request (s, fail e) = (s, fail e)
  append_after scrub request (s, good head) =
      let env = seal scrub request head in
      elim (validate_envelope env.body true) [
        | fail e ↦ (s, fail e)
        | good u ↦ (write_row (write_head (write_line s env) env) env, good env)
      ]

  unfoldable pub append : (String → String) → LogState → Request → LogState × Reply Envelope
  unfolding load_head append_after
  append scrub s request = append_after scrub request (load_head s)

  -- an accepted `append` that stops within its writes, as the next process finds it
  unfoldable pub interrupted_after :
      Progress → (String → String) → Request → LogState × Reply String → Left
  unfolding seal stopped reopened
  interrupted_after progress scrub request (s, fail e) = whole (reopened s)
  interrupted_after progress scrub request (s, good head) =
      stopped progress s (seal scrub request head)

  unfoldable pub interrupted : Progress → (String → String) → LogState → Request → Left
  unfolding load_head interrupted_after
  interrupted progress scrub s request = interrupted_after progress scrub request (load_head s)

  -- the loop of `verify_chain`, up to the hash of the last event
  unfoldable pub walk_chain : String → List Envelope → Reply String
  unfolding check_link
  walk_chain prev [] = good prev
  walk_chain prev (env ∷ rest) =
      let next = walk_chain env.hash rest in
      elim (check_link prev env) [ fail e ↦ fail e | good u ↦ next ]

  unfoldable pub verify_chain : LogState → Reply (Unit {0})
  unfolding walk_chain
  verify_chain s = elim (walk_chain genesis (events s)) [
    | fail e ↦ fail e
    | good last ↦ elim (events s) [
      | [] ↦ good tt
      | env ∷ rest ↦ elim s.head [
        | none ↦ good tt
        | some declared ↦ if declared == last then good tt else fail (head_mismatch declared)
      ]
    ]
  ]

  -- the first `_load_head` of a process on a torn log: `iter_events` yields the events and then raises
  unfoldable pub load_torn : LogState → LogState × Reply String
  unfolding validated_tail
  load_torn s = elim (validated_tail start (events s)) [
    | fail e ↦ (s, fail e)
    | good tail ↦ (s, fail not_json)
  ]

  -- the first `append` of a process
  unfoldable pub append_left : (String → String) → Left → Request → Left × Reply Envelope
  unfolding append append_after load_torn
  append_left scrub (whole s) request =
      let (t, reply) : LogState × Reply Envelope = append scrub s request in (whole t, reply)
  append_left scrub (torn s) request =
      let (t, reply) : LogState × Reply Envelope = append_after scrub request (load_torn s) in
      (torn t, reply)

  -- `verify_chain`
  unfoldable pub verify_left : Left → Reply (Unit {0})
  unfolding verify_chain walk_chain
  verify_left (whole s) = verify_chain s
  verify_left (torn s) = elim (walk_chain genesis (events s)) [
    | fail e ↦ fail e
    | good last ↦ fail not_json
  ]
