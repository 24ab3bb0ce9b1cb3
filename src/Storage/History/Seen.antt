-- ===== src/Storage/History/Seen.antt =====
-- What the replay table remembers of an event, through the repository's calls (src/storage.rs).
use buzz_server.Base.{
  ℕ, ◌≤◌, ◌<◌, Bool, true, false, Option, none, some, List, [], ◌∷◌, String, Result, ok, err, ◌≡◌,
  refl, arith, All, leb, ltb, ◌==◌, string_eq, ==_refl, find, delete_where, insert_row,
  find-insert_row_fresh, find-insert_row_old, find-delete_where_kept, find-delete_where_absent,
  delete_where-insert_row, ◌∙◌, ap,
}
use buzz_server.Storage.History.Methods.{db_of-eq-ok}
use buzz_server.Storage.History.Replays.{replay-perform}
use buzz_server.Storage.Schema.{StorageError, ReplayRow, Db}
use buzz_server.Storage.Boundary.{claim_nip98_replay, integer_max}
use buzz_server.Storage.Calls.{Call, settle, perform, run_calls}

unfoldable pub replay_row : String → Db → Option ReplayRow
replay_row event db = find (λ r. r.event_id == event) db.replay

-- An event is in the table, not to be dropped before a time.
abbrev pub Remembered : String → ℕ → Db → Type 0
Remembered event deadline db =
    (row : ReplayRow) × (replay_row event db ≡ some row) × (deadline ≤ row.expires_at)

-- A claim whose clock is not past a time.
abbrev pub punctual : ℕ → Call → Bool
punctual deadline (Call.claim_nip98_replay event expires now) = leb now deadline
punctual deadline _ = true

module _ (event : String) (deadline : ℕ) where
  pub claim-Remembered :
      (now : ℕ) (a b : Db)
      → claim_nip98_replay event deadline now a ≡ ok (true, b)
      → Remembered event deadline b
  unfolding claim_nip98_replay replay_row
  claim-Remembered now a b h =
      let live = delete_where (λ r. ltb r.expires_at now) a.replay in
      let fresh : find (λ r. r.event_id == event) live ≡ none = ground arith in
      let rows : b.replay ≡ insert_row (record { event_id = event; expires_at = deadline }) live =
        ground arith in
      (
        record { event_id = event; expires_at = deadline },
        ap (find (λ r. r.event_id == event)) rows
            ∙ find-insert_row_fresh (λ r. r.event_id == event)
                (record { event_id = event; expires_at = deadline }) live fresh (==_refl event),
        omega arith,
      )

  -- Past its time, the event is claimed anew.
  pub claim-late :
      (now later : ℕ) (a b : Db)
      → claim_nip98_replay event deadline now a ≡ ok (true, b)
      → deadline < later
      → later ≤ integer_max
      → (c : Db) × (claim_nip98_replay event deadline later b ≡ ok (true, c))
  unfolding claim_nip98_replay
  claim-late now later a b h l m =
      let live = delete_where (λ r. ltb r.expires_at now) a.replay in
      let row : ReplayRow = record { event_id = event; expires_at = deadline } in
      let rows : b.replay ≡ insert_row row live = ground arith in
      let fresh : find (λ r. r.event_id == event) live ≡ none = ground arith in
      let left = delete_where (λ r. ltb r.expires_at later) b.replay in
      let dropped : left ≡ delete_where (λ r. ltb r.expires_at later) live =
        ap (delete_where (λ r. ltb r.expires_at later)) rows
        ∙ delete_where-insert_row (λ r. ltb r.expires_at later) row live (ground arith) in
      let free : find (λ r. r.event_id == event) left ≡ none =
        ap (find (λ r. r.event_id == event)) dropped
        ∙ find-delete_where_absent (λ r. r.event_id == event) (λ r. ltb r.expires_at later) live
            fresh in
      (record b { replay = insert_row row left }, ground arith)

  kept_live :
      (now : ℕ) (a : Db) (row : ReplayRow)
      → now ≤ deadline
      → replay_row event a ≡ some row
      → deadline ≤ row.expires_at
      → find (λ r. r.event_id == event) (delete_where (λ r. ltb r.expires_at now) a.replay)
        ≡ some row
  unfolding replay_row
  kept_live now a row h e l =
      find-delete_where_kept (λ r. r.event_id == event) (λ r. ltb r.expires_at now) a.replay e
        (ground arith)

  -- A remembered event is not claimed again in time.
  pub claim_again :
      (expires now : ℕ) (a : Db)
      → now ≤ deadline
      → Remembered event deadline a
      → (b : Bool × Db) → claim_nip98_replay event expires now a ≡ ok b
      → b.0 ≡ false
  unfolding claim_nip98_replay
  claim_again expires now a h (row, e, l) b r = let live = kept_live now a row h e l in ground arith

  claim-keeps :
      (other : String) (expires now : ℕ) (a b : Db) (seen : Bool)
      → now ≤ deadline
      → claim_nip98_replay other expires now a ≡ ok (seen, b)
      → Remembered event deadline a
      → Remembered event deadline b
  unfolding claim_nip98_replay
  claim-keeps other expires now a b seen h r (row, e, l) =
      let live = kept_live now a row h e l in
      let old =
        find-insert_row_old (λ r. r.event_id == event)
          (record { event_id = other; expires_at = expires })
          (delete_where (λ r. ltb r.expires_at now) a.replay) live in
      (row, (unfold replay_row in ground arith), l)

  -- A call that leaves the table leaves what it remembers.
  Remembered-same :
      (a b : Db) → b.replay ≡ a.replay → Remembered event deadline a → Remembered event deadline b
  unfolding replay_row
  Remembered-same a b e (row, h, l) = (row, ap (find (λ r. r.event_id == event)) e ∙ h, l)

  perform-Remembered :
      (c : Call) (a b : Db)
      → punctual deadline c ≡ true
      → perform c a ≡ ok b
      → Remembered event deadline a
      → Remembered event deadline b
  unfolding perform
  perform-Remembered (Call.claim_nip98_replay other expires now) a b q h m =
      let (seen, e) = db_of-eq-ok (claim_nip98_replay other expires now a) h in
      claim-keeps other expires now a b seen (ground arith) e m
  perform-Remembered c a b q h m = Remembered-same a b (replay-perform c a b refl h) m

  -- What is remembered until a time stays so through calls whose clocks are not past it.
  pub run_calls-Remembered :
      (a : Db) (cs : List Call)
      → All (λ c. punctual deadline c ≡ true) cs
      → Remembered event deadline a
      → Remembered event deadline (run_calls a cs)
  unfolding run_calls
  run_calls-Remembered a [] s m = m
  run_calls-Remembered a (c ∷ cs) s m =
      run_calls-Remembered (settle a (perform c a)) cs s.1 (go (perform c a) refl)
    where
      go : (r : Result StorageError Db) → perform c a ≡ r → Remembered event deadline (settle a r)
      go (ok b) e = perform-Remembered c a b s.0 e m
      go (err x) e = m
