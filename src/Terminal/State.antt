-- ===== src/Terminal/State.antt =====
-- The state behind the mutex of a terminal, and its errors (device/terminal/src/lib.rs). An
-- `Instant` is a number of milliseconds. The OS handles are kept as what the code asks of them:
-- `master` says whether the descriptor is still there, and the child is seen through the results
-- that the calls on it return.
use donkeywork_desktop.Base.{ℕ, Bool, true, false, Option, none, List, [], Result}

pub data Error : Type 0 where
  profile_uid_mismatch invalid_profile invalid_size invalid_sequence invalid_input : Error
  not_attached control_conflict closed io output_failed : Error

abbrev pub Fallible : Type 0 → Type 0
Fallible A = Result Error A

abbrev pub chunk_limit : ℕ
chunk_limit = 32768

abbrev pub replay_limit : ℕ
replay_limit = 4194304

-- 120 seconds
abbrev pub retention : ℕ
retention = 120000

abbrev pub replay_entry_limit : ℕ
replay_entry_limit = 4096

abbrev pub max_sequence : ℕ
max_sequence = 9007199254740991

pub record Output : Type 0 where
  pub sequence : ℕ
  pub bytes : List ℕ

pub record Exit : Type 0 where
  pub code : Option ℕ
  pub signal : Option ℕ
  pub final_output_sequence : ℕ

pub record Gap : Type 0 where
  pub earliest_available_sequence : ℕ
  pub latest_sequence : ℕ

pub record Batch : Type 0 where
  pub output : List Output
  pub gap : Option Gap
  pub exit : Option Exit
  pub latest_output_sequence : ℕ

pub record Resumed : Type 0 where
  pub batch : Batch
  pub last_accepted_input_sequence : ℕ
  pub last_resize_sequence : ℕ

pub record Entry : Type 0 where
  pub output : Output
  pub at : ℕ

pub record State : Type 0 where
  pub master : Bool
  pub pid : ℕ
  pub history : List Entry
  pub history_bytes : ℕ
  pub latest : ℕ
  pub last_input : ℕ
  pub last_resize : ℕ
  pub last_delivered : ℕ
  pub attached : Bool
  pub detached : Option ℕ
  pub stop : Bool
  pub exit : Option Exit
  pub output_failed : Bool

-- The state that `Pty::create` shares with the monitor thread.
unfoldable pub created : ℕ → State
created pid = record {
  master = true;
  pid = pid;
  history = [];
  history_bytes = 0;
  latest = 0;
  last_input = 0;
  last_resize = 0;
  last_delivered = 0;
  attached = true;
  detached = none;
  stop = false;
  exit = none;
  output_failed = false;
}
