-- ===== src/Container/Status.antt =====
-- pkg/store/container/status.go: the status of a container, its state, and its checkpoint.
-- Timestamps are nanoseconds since the epoch, taken not to be before it. `encoding/json` is the
-- interface `Json`: it keeps all fields but those tagged `json:"-"`.
pub mod Checkpointing
use cri.Base.{
  ℕ, zero, ◌-◌, String, ◌≡◌, Bool, true, false, Option, none, some, if◌then◌else◌, ◌==◌, not,
  str_eq,
}
use cri.Base.Int.{ℤ, pos}
use cri.Base.Errors.{Error, Result, ok, err, failure, wrap, ◌>>=◌}

-- Status, without the three fields that are not checkpointed.
pub record Checkpoint : Type 0 where
  pub pid : ℕ
  pub created_at : ℕ
  pub started_at : ℕ
  pub finished_at : ℕ
  pub exit_code : ℤ
  pub reason : String
  pub message : String

-- Status
pub record Status : Type 0 where
  pub fields : Checkpoint
  pub open fields use *
  pub starting : Bool
  pub removing : Bool
  pub unknown : Bool

-- runtime.ContainerState of the CRI API
pub data ContainerState : Type 0 where
  container_created container_running container_exited container_unknown : ContainerState

-- State
unfoldable pub state : Status → ContainerState
state s =
    if s.unknown
    then container_unknown
    else if not (s.finished_at == 0)
    then container_exited
    else if not (s.started_at == 0)
    then container_running
    else if not (s.created_at == 0)
    then container_created
    else container_unknown

-- versionedStatus
pub record VersionedStatus : Type 0 where
  pub version : String
  pub status : Checkpoint

abbrev pub status_version : String
status_version = "v1"

pub record Json : Type 1 where
  pub Bytes : Type 0
  pub marshal : VersionedStatus → Result Bytes
  pub unmarshal : Bytes → Result VersionedStatus
  pub unmarshal-marshal : (v : VersionedStatus) (b : Bytes) → marshal v ≡ ok b → unmarshal b ≡ ok v

-- What `decode` makes of the flags: their zero values.
abbrev pub restored : Checkpoint → Status
restored c = record { fields = c; starting = false; removing = false; unknown = false }

module _ (j : Json) where
  open j use {Bytes, marshal, unmarshal}

  -- encode
  unfoldable pub encode : Status → Result Bytes
  encode s = marshal (record { version = status_version; status = s.fields })

  check_version : VersionedStatus → Result Status
  check_version v =
      if str_eq v.version status_version
      then ok (restored v.status)
      else err (failure "unsupported version")

  -- decode
  unfoldable pub decode : Bytes → Result Status
  unfolding check_version
  decode data' = unmarshal data' >>= check_version

  -- statusStorage, with the file at its path
  pub record Storage : Type 0 where
    pub status : Status
    pub file : Option Bytes

  -- `continuity.AtomicWriteFile` replaces the file, or fails and leaves it.
  write_file : Option Error → Bytes → Storage → Result Storage
  write_file none data' st = ok (record st { file = some data' })
  write_file (some e) data' st = err (wrap "failed to checkpoint status" e)

  wrap_encode : Result Bytes → Result Bytes
  wrap_encode (ok b) = ok b
  wrap_encode (err e) = err (wrap "failed to encode status" e)

  -- What `UpdateSync` does with the status that its function returns.
  checkpoint : Option Error → Status → Storage → Result Storage
  unfolding write_file wrap_encode
  checkpoint write new_status st = do
    data' ← wrap_encode (encode new_status)
    written ← write_file write data' st
    ok (record written { status = new_status })

  commit : Result Storage → Storage → Storage × Option Error
  commit (ok new) st = (new, none)
  commit (err e) st = (st, some e)

  -- UpdateSync; its `write` argument is what the write of the file returns.
  unfoldable pub update_sync :
      Option Error → (Status → Result Status) → Storage → Storage × Option Error
  unfolding checkpoint commit
  update_sync write u st = commit (u st.status >>= λ new_status. checkpoint write new_status st) st

  -- Update
  unfoldable pub update : (Status → Result Status) → Storage → Storage × Option Error
  unfolding commit
  update u st = commit (u st.status >>= λ new_status. ok (record st { status = new_status })) st

  -- StoreStatus; the file there before is replaced.
  unfoldable pub store_status : Option Error → Status → Result Storage
  unfolding checkpoint
  store_status write s = checkpoint write s (record { status = s; file = none })

  read_file : Option Bytes → Result Bytes
  read_file none = err (failure "failed to read status")
  read_file (some b) = ok b

  -- LoadStatus
  unfoldable pub load_status : Option Bytes → Result Status
  unfolding read_file
  load_status file = read_file file >>= decode
