-- ===== src/Ring/Handle.antt =====
-- src/shared_audio.c: creating, opening, closing and unlinking a ring in POSIX shared memory. The
-- system keeps named objects; whether its calls succeed is an argument of each operation.
use Prim.Native.Char.{code}
use Prim.Native.String.{String, len, char_at}
use text.Mathlib.Text.{◌==◌ as str_eq}
use reac_jack.Common.{
  Bool, Option, false, if◌then◌else◌, leb, ltb, none, not, some, u64, ℕ, ◌!=◌, ◌&&◌, ◌*◌, ◌+◌, ◌/◌,
  ◌==◌, ◌||◌,
}
use reac_jack.Ring.{Header, Ring}

abbrev pub shared_audio_magic : ℕ
shared_audio_magic = 0x524a5341

abbrev pub current_abi : ℕ
current_abi = 3

abbrev pub name_max : ℕ
name_max = 32

-- `sizeof(SharedAudioHeader)`: six 32-bit and eleven 64-bit fields.
abbrev pub size_of_header : ℕ
size_of_header = 112

-- `(sizeof(SharedAudioHeader) + 63) & ~63`
abbrev pub samples_offset : ℕ
samples_offset = (size_of_header + 63) / 64 * 64

-- `mapping_bytes`, in `size_t`
abbrev pub mapping_bytes : ℕ → ℕ → ℕ
mapping_bytes channels capacity = u64 (samples_offset + channels * capacity * 4)

-- The checks of `init_handle`; a null name is `none`.
abbrev pub name_fits : Option String → Bool
name_fits none = false
name_fits (some name) = (code (char_at name 0) == b'/') && ltb (len name) name_max

-- A shared memory object: its size, and its bytes as a ring.
pub record Segment (A : Type 0) : Type 0 where
  pub bytes : ℕ
  pub memory : Ring A

-- The system's names.
abbrev pub Objects : Type 0 → Type 0
Objects A = String → Option (Segment A)

-- The checks of `shared_audio_open` on the header of a mapped object.
abbrev pub is_compatible : ℕ → Header → Bool
is_compatible bytes h =
    (h.magic == shared_audio_magic)
    && (h.abi_version == current_abi)
    && (h.header_bytes == size_of_header)
    && (h.channels != 0)
    && (h.capacity_frames != 0)
    && leb (mapping_bytes h.channels h.capacity_frames) bytes

module _ {A : Type 0} where
  abbrev pub bind : String → Option (Segment A) → Objects A → Objects A
  bind name segment objects = λ n. if str_eq n name then segment else objects n

  -- What `shared_audio_create` leaves in an object that is zero: `silence` is the float of zeroes.
  abbrev pub fresh : A → ℕ → ℕ → ℕ → Ring A
  fresh silence rate channels capacity = record {
    header = record {
      magic = shared_audio_magic;
      abi_version = current_abi;
      header_bytes = size_of_header;
      sample_rate = rate;
      channels = channels;
      capacity_frames = capacity;
      write_pos = 0;
      read_pos = 0;
      underruns = 0;
      overruns = 0;
      dropped_packets = 0;
      resets = 0;
      inserted_frames = 0;
      dropped_frames = 0;
      clock_seq = 0;
      clock_host_time = 0;
      clock_sample_pos = 0;
    };
    samples = λ i. silence;
  }

  -- `shared_audio_create`: the mapped ring, if it succeeds. `opens`, `sized` and `maps` say whether
  -- `shm_open`, `ftruncate` and `mmap` succeed; `shm_unlink` removes a name that is there.
  unfoldable pub create :
      A → Objects A → Option String → ℕ → ℕ → ℕ → Bool → Bool → Bool → Option (Ring A) × Objects A
  create silence objects none rate channels capacity opens sized maps = (none, objects)
  create silence objects (some name) rate channels capacity opens sized maps =
      if not (name_fits (some name)) || (rate == 0) || (channels == 0) || (capacity == 0)
      then (none, objects)
      else let cleared = bind name none objects in
        if not (opens && sized && maps)
        then (none, cleared)
        else let r = fresh silence rate channels capacity in
          let segment : Segment A = record {
            bytes = mapping_bytes channels capacity;
            memory = r;
          } in
          (some r, bind name (some segment) cleared)

  abbrev pub open_segment : Option (Segment A) → Bool → Option (Ring A)
  open_segment none maps = none
  open_segment (some s) maps =
      if ltb s.bytes size_of_header || not maps || not (is_compatible s.bytes s.memory.header)
      then none
      else some s.memory

  -- `shared_audio_open`: the mapped ring, if it succeeds. `maps` says whether `fstat` and `mmap` do.
  unfoldable pub open_ring : Objects A → Option String → Bool → Option (Ring A)
  open_ring objects none maps = none
  open_ring objects (some name) maps =
      if name_fits (some name) then open_segment (objects name) maps else none

  -- `shared_audio_close` leaves a handle without a ring, also if it had none.
  abbrev pub close : Option (Ring A) → Option (Ring A)
  close handle = none

  -- `shared_audio_unlink`
  abbrev pub unlink : String → Objects A → Objects A
  unlink name objects = bind name none objects
