-- ===== src/Storage/Mem/Rooms/Queries.antt =====
-- storage/mem.rs: what a query finds, where the next one has to start, and what waiting does.
use kerux.Prelude.{ℕ, zero, suc, ◌+◌, ◌-◌, ◌≤◌, ◌≡◌, refl, ap, ◌∙◌, Bool, true, false}
use kerux.Prelude.{◌&&◌, none, some, List, [], ◌∷◌, ◌++◌, arith}
use kerux.Prelude.Tests.{if◌then◌else◌}
use kerux.Prelude.Lists.{length, take, drop, keep, is_empty, length-append}
use kerux.Prelude.Equality.{string_eq}
use kerux.Prelude.Maps.{lookup}
use native.Mathlib.Numerals.{add-one}
use kerux.Errors.{ok}
use kerux.Events.Content.{Serde}
use kerux.Events.Pdu.{StoredPdu}
use kerux.Storage.Query.{timeline, EventQuery, is_timeline, matches}
use kerux.Storage.Query.Matching.{is_hit, asks_object, matches_total}
use kerux.Storage.Mem.{Room, MemStorage}
use kerux.Storage.Mem.Rooms.{get_range, filter_matches, scan}
use kerux.Storage.Mem.Rooms.{finished, waiting, query_pdus_start, query_pdus_resume}

module _ {ℓ} {A : Type ℓ} where
  drop-length : (xs : List A) → drop (length xs) xs ≡ []
  drop-length [] = refl
  drop-length (x ∷ xs) = drop-length xs

  drop-append : (xs ys : List A) → drop (length xs) (xs ++ ys) ≡ ys
  drop-append [] ys = refl
  drop-append (x ∷ xs) ys = drop-append xs ys

  take_all : (n : ℕ) (xs : List A) → length xs ≤ n → take n xs ≡ xs
  take_all zero [] h = refl
  take_all zero (x ∷ xs) h = absurd (omega arith)
  take_all (suc n) [] h = refl
  take_all (suc n) (x ∷ xs) h = ap (λ ys. x ∷ ys) (take_all n xs (omega arith))

  length-drop : (n : ℕ) (xs : List A) → length (drop n xs) ≡ length xs - n
  length-drop zero xs = omega arith
  length-drop (suc n) [] = omega arith
  length-drop (suc n) (x ∷ xs) = omega (arith, length-drop n xs)

  -- A range up to the last index is the rest of the list, as long as it starts at most one past it.
  get_range_rest :
      (from : ℕ) (x : A) (xs : List A)
      → from ≤ length (x ∷ xs)
      → get_range from (length xs) (x ∷ xs) ≡ some (drop from (x ∷ xs))
  unfolding get_range
  get_range_rest from x xs h =
      let rest : take (length xs + 1 - from) (drop from (x ∷ xs)) ≡ drop from (x ∷ xs) =
        take_all _ (drop from (x ∷ xs)) (omega (arith, length-drop from (x ∷ xs))) in
      ground (arith, rest)

module _ {J : Type 0} (S : Serde J) where
  -- The events that a query selects.
  abbrev pub selection : EventQuery J → List (StoredPdu J) → List (StoredPdu J)
  selection q = keep (λ (pdu : StoredPdu J). is_hit (matches S q pdu.inner))

  filter_matches-eq-selection :
      (q : EventQuery J) (pdus : List (StoredPdu J))
      → asks_object S q.contains_json ≡ true
      → filter_matches S q pdus ≡ ok (selection q pdus)
  unfolding filter_matches
  filter_matches-eq-selection q [] asked = refl
  filter_matches-eq-selection q (pdu ∷ pdus) asked =
      rw (matches_total S q pdu.inner asked, filter_matches-eq-selection q pdus asked)
        (ground arith)

  pub scan-eq-selection :
      (q : EventQuery J) (from : ℕ) (db : MemStorage J) (room : Room J) (e : StoredPdu J)
      (es : List (StoredPdu J))
      → lookup q.room_id db.rooms ≡ some room
      → room.events ≡ e ∷ es
      → asks_object S q.contains_json ≡ true
      → from ≤ length (e ∷ es)
      → scan S q from none db ≡ ok (selection q (drop from (e ∷ es)), length es)
  unfolding scan
  scan-eq-selection q from db room e es found events asked h =
      ground (
        arith,
        get_range_rest from e es h,
        filter_matches-eq-selection q (drop from (e ∷ es)) asked,
      )

  -- The query for a room's timeline from an index, up to the end.
  abbrev pub timeline_from : ℕ → EventQuery J → EventQuery J
  timeline_from from q = record q { query_type = timeline from none }

  -- In a room with events, a timeline query from an index that is at most one past the last event
  -- selects from the events that start there, and reports the last index. It waits, and
  -- remembers that index, exactly if it was told to wait and found nothing.
  pub query_pdus_start-timeline :
      (q : EventQuery J) (from : ℕ) (wait : Bool) (db : MemStorage J) (room : Room J)
      (e : StoredPdu J) (es : List (StoredPdu J))
      → lookup q.room_id db.rooms ≡ some room
      → room.events ≡ e ∷ es
      → asks_object S q.contains_json ≡ true
      → from ≤ length (e ∷ es)
      → query_pdus_start S (timeline_from from q) wait db ≡ (
          let found = selection (timeline_from from q) (drop from (e ∷ es)) in
          ok (if wait && is_empty found then waiting (length es) else finished found (length es)))
  unfolding query_pdus_start is_timeline
  query_pdus_start-timeline q from wait db room e es found events asked h =
      rw (scan-eq-selection (timeline_from from q) from db room e es found events asked h)
        (ground arith)

  -- A reader that starts again one past the last index that it was given sees each later event
  -- once and no earlier one: it gets what its query selects of the events added since.
  query_pdus_start-next :
      (q : EventQuery J) (db : MemStorage J) (room : Room J) (e : StoredPdu J)
      (es new : List (StoredPdu J))
      → lookup q.room_id db.rooms ≡ some room
      → room.events ≡ (e ∷ es) ++ new
      → asks_object S q.contains_json ≡ true
      → query_pdus_start S (timeline_from (length es + 1) q) false db
        ≡ ok (finished (selection (timeline_from (length es + 1) q) new) (length (es ++ new)))
  query_pdus_start-next q db room e es new found events asked =
      let start : drop (length es + 1) (e ∷ (es ++ new)) ≡ new = rw add-one (drop-append es new) in
      query_pdus_start-timeline q (length es + 1) false db room e (es ++ new) found events asked
        (omega (arith, length-append es new))
      ∙ ap
          (λ (rest : List (StoredPdu J)).
            ok (finished (selection (timeline_from (length es + 1) q) rest) (length (es ++ new))))
          start

  -- A query that waited looks again from the last index that it had seen, so the event there, which
  -- was in the room before the wait, is selected once more.
  query_pdus_resume-repeats :
      (q : EventQuery J) (db : MemStorage J) (room : Room J) (seen : List (StoredPdu J))
      (e : StoredPdu J) (new : List (StoredPdu J))
      → lookup q.room_id db.rooms ≡ some room
      → room.events ≡ seen ++ (e ∷ new)
      → asks_object S q.contains_json ≡ true
      → query_pdus_resume S q (length seen) db
        ≡ ok (selection q (e ∷ new), length seen + length new)
  unfolding query_pdus_resume
  query_pdus_resume-repeats q db room [] e new found events asked =
      scan-eq-selection q 0 db room e new found events asked (omega arith)
      ∙ ap (λ (n : ℕ). ok (selection q (e ∷ new), n)) (omega arith)
  query_pdus_resume-repeats q db room (y ∷ seen) e new found events asked =
      scan-eq-selection q (length (y ∷ seen)) db room y (seen ++ (e ∷ new)) found events asked
        (omega (arith, length-append seen (e ∷ new)))
      ∙ rw (drop-append (y ∷ seen) (e ∷ new)) (
          ap (λ (n : ℕ). ok (selection q (e ∷ new), n))
            (omega (arith, length-append seen (e ∷ new))))
