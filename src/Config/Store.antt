-- ===== src/Config/Store.antt =====
-- config.go: the settings store. Each method holds the mutex, and is one step on the store.
pub mod Decoding
pub mod Setting
pub mod Merging
pub mod Leak
pub mod Cells
pub mod Restart
pub mod Partial
pub mod Unnamed
pub mod Persistence
pub mod SampleCodec
pub mod SampleLaw
mod RestartTests
mod Tests
use tsheadroom.Prelude.{Bytes, bytes_eq, Bool, true, false, [], Option, none, some, if◌then◌else◌}
use tsheadroom.Go.Json.{Json}
use tsheadroom.Config.{
  Heap, empty_heap, CompressSettings, zero_settings, default_settings, View, view, Invalid,
  validate,
}
use tsheadroom.Config.Json.{Target, unmarshal_settings, saved_text}

-- `file` is what stands on disk at `path`; no path, no persistence.
pub record Store : Type 0 where
  pub cur : CompressSettings
  pub heap : Heap
  pub path : Bytes
  pub file : Option Bytes

pub data Error : Type 0 where
  bad_json : Error
  invalid : Invalid → Error
  persist : Error

pub data ReadResult : Type 0 where
  contents : Bytes → ReadResult
  not_exist unreadable : ReadResult

-- `get`: a copy of the struct, whose pointers name the same cells.
unfoldable pub get_settings : Store → CompressSettings
get_settings st = st.cur

-- What `*st.cur.Load()` reads as at once, with the cells as they are then.
unfoldable pub current : Store → View
current st = view st.heap st.cur

unfoldable pub accept_loaded : Target × Bool → Option Target
accept_loaded (t, false) = none
accept_loaded (t, true) = elim (validate (view t.heap t.settings)) [ none ↦ some t | some e ↦ none ]

-- What a read file gives: settings decoded onto the zero value, if they decode and are valid.
unfoldable pub read_config : Json → ReadResult → Option Target
read_config j (contents b) =
    accept_loaded (unmarshal_settings j b (record { heap = empty_heap; settings = zero_settings }))
read_config j not_exist = none
read_config j unreadable = none

unfoldable pub defaults : Target
defaults = record { heap = empty_heap; settings = default_settings }

unfoldable pub file_contents : ReadResult → Option Bytes
file_contents (contents b) = some b
file_contents not_exist = none
file_contents unreadable = none

unfoldable pub or_default : Option Target → Target
unfolding defaults
or_default none = defaults
or_default (some t) = t

unfoldable pub load_settings : Json → Bytes → ReadResult → Store
load_settings j path r =
    let t = or_default (if bytes_eq path [] then none else read_config j r) in
    record { cur = t.settings; heap = t.heap; path = path; file = file_contents r }

-- `save`: the file's new contents, or `none` if the directory or the file cannot be written.
-- `writable` says what the disk does; the write is atomic.
unfoldable pub save : Json → Bool → CompressSettings → Store → Option Store
save j writable s st =
    if bytes_eq st.path []
    then some st
    else if writable
    then some (record st { file = some (saved_text j (view st.heap s)) })
    else none

unfoldable pub swap : CompressSettings → Store → Option Store → Store × Option Error
swap s st none = (st, some persist)
swap s st (some st') = (record st' { cur = s }, none)

-- `applyLocked`: validate, persist, swap.
unfoldable pub apply_locked : Json → Bool → CompressSettings → Store → Store × Option Error
apply_locked j writable s st = elim (validate (view st.heap s)) [
  | none ↦ swap s st (save j writable s st)
  | some e ↦ (st, some (invalid e))
]

unfoldable pub set : Json → Bool → CompressSettings → Store → Store × Option Error
set j writable s st = apply_locked j writable s st

-- The decoder wrote into the cells of the store before `merge` looks at its result.
unfoldable pub merge_decoded : Json → Bool → Store → Target × Bool → Store × Option Error
merge_decoded j writable st (t, false) = (record st { heap = t.heap }, some bad_json)
merge_decoded j writable st (t, true) =
    apply_locked j writable t.settings (record st { heap = t.heap })

unfoldable pub merge : Json → Bool → Bytes → Store → Store × Option Error
merge j writable body st =
    merge_decoded j writable st
      (unmarshal_settings j body (record { heap = st.heap; settings = st.cur }))

-- The struct that `merge` returns when it reports no error.
unfoldable pub merge_returns : Json → Bytes → Store → CompressSettings
merge_returns j body st =
    (unmarshal_settings j body (record { heap = st.heap; settings = st.cur })).0.settings
