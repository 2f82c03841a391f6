-- ===== src/Catalog/Tracking.antt =====
-- The tracking overlay of src/glTFredb.rs: `tracking`, `set_tracking` and `initialize_tracking`.
pub mod Overlay
pub mod Decisions
use trueos_picasso.Prelude.{
  ℕ, ◌+◌, Bool, true, false, not, ◌&&◌, ◌||◌, Option, none, some, List, [], ◌∷◌,
}
use trueos_picasso.Prelude.Result.{Result, ok, err, guard, ok_or, ◌>>=◌, ◌>>◌}
use trueos_picasso.Redb.{Table, or_empty}
use trueos_picasso.Text.{Text}
use trueos_picasso.Catalog.Types.{
  Error, transaction, table, storage, commit, unknown_record, invalid_tracking_state, Tracking,
  default_tracking, Codecs, encode, decode, records, tracking, Store, Engine, settle,
}

-- `(tracking.fully_respected || tracking.tested) && !tracking.included`, negated
abbrev pub is_consistent : Tracking → Bool
is_consistent t = not ((t.fully_respected || t.tested) && not t.included)

module _ (T : Table Text (List ℕ)) (e : Engine T) (c : Codecs) where
  abbrev pub decode_tracking : Option (List ℕ) → Result Error (Option Tracking)
  decode_tracking none = ok none
  decode_tracking (some bytes) = do t ← decode c.tracking bytes; ok (some t)

  abbrev pub tracking_in :
      (record_id : Text) (d : Store T) → Option T.State → Result Error (Option Tracking)
  tracking_in record_id d none = ok none
  tracking_in record_id d (some s) = do
    guard (e.opens tracking d) table
    found ← ok_or (T.get s record_id) storage
    decode_tracking found

  unfoldable pub tracking_of : (record_id : Text) (d : Store T) → Result Error (Option Tracking)
  tracking_of record_id d = do
    guard (e.begins_read d) transaction
    tracking_in record_id d d.tracking

  -- The write transaction of `set_tracking`.
  unfoldable pub set_tracking_txn :
      (record_id : Text) → Tracking → (d : Store T) → Result Error (Unit {0} × Store T)
  set_tracking_txn record_id t d = do
    guard (e.begins_write d) transaction
    guard (e.opens records d) table
    found ← ok_or (T.get (or_empty T d.records) record_id) storage
    known ← ok_or found (unknown_record record_id)
    guard (e.opens tracking d) table
    encoded ← encode c.tracking t
    set ← ok_or (T.insert (or_empty T d.tracking) record_id encoded) storage
    let d' : Store T = record d { records = some (or_empty T d.records); tracking = some set }
    guard (e.commits d') commit
    ok (tt, d')

  unfoldable pub set_tracking :
      (record_id : Text) → Tracking → (d : Store T) → Result Error (Unit {0}) × Store T
  set_tracking record_id t d =
      settle T d (do guard (is_consistent t) invalid_tracking_state; set_tracking_txn record_id t d)

  -- One round of `insert_missing_tracking`: the count and the table after it.
  unfoldable pub insert_if_missing :
      (default : List ℕ) (key : Text) (inserted : ℕ) (s : T.State)
      → Option (List ℕ)
      → Result Error (ℕ × T.State)
  insert_if_missing default key inserted s (some found) = ok (inserted, s)
  insert_if_missing default key inserted s none = do
    s' ← ok_or (T.insert s key default) storage
    ok (inserted + 1, s')

  -- `for key in keys`
  unfoldable pub insert_missing :
      (default : List ℕ) (keys : List Text) (inserted : ℕ) (s : T.State)
      → Result Error (ℕ × T.State)
  insert_missing default [] inserted s = ok (inserted, s)
  insert_missing default (key ∷ rest) inserted s = do
    found ← ok_or (T.get s key) storage
    p ← insert_if_missing default key inserted s found
    insert_missing default rest p.0 p.1

  unfoldable pub insert_missing_tracking :
      (keys : List Text) (d : Store T) → Result Error (ℕ × T.State)
  insert_missing_tracking keys d = do
    guard (e.opens tracking d) table
    default ← encode c.tracking default_tracking
    insert_missing default keys 0 (or_empty T d.tracking)

  -- The write transaction of `initialize_tracking`.
  unfoldable pub initialize_txn : (d : Store T) → Result Error (ℕ × Store T)
  initialize_txn d = do
    guard (e.begins_write d) transaction
    guard (e.opens records d) table
    keys ← ok_or (T.iter (or_empty T d.records)) storage
    p ← insert_missing_tracking keys d
    let d' : Store T = record d { records = some (or_empty T d.records); tracking = some p.1 }
    guard (e.commits d') commit
    ok (p.0, d')

  unfoldable pub initialize_tracking : (d : Store T) → Result Error ℕ × Store T
  initialize_tracking d = settle T d (initialize_txn d)
