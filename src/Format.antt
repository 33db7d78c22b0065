-- ===== src/Format.antt =====
-- src/format.rs: the constants of the ZIP format, the central directory entry, and the pure
-- parsing helpers on byte slices. A byte slice is a list of numbers. The proofs are in the
-- children.
pub mod Scan
pub mod Extra
pub mod Zip64
pub mod Aes
pub mod Path
use s_zip.Common.{
  ℕ, zero, suc, ◌+◌, ◌-◌, ◌*◌, Bool, true, false, ◌&&◌, not, List, [], ◌∷◌, ◌++◌, Option, none,
  some, ltb, leb, ◌==◌, if◌then◌else◌, length, get_or, slice, from_le_bytes, bytes_eq, drop,
}

abbrev pub local_file_header_signature : ℕ
local_file_header_signature = 0x04034b50

abbrev pub central_directory_signature : ℕ
central_directory_signature = 0x02014b50

abbrev pub end_of_central_directory_signature : ℕ
end_of_central_directory_signature = 0x06054b50

abbrev pub zip64_end_of_central_directory_signature : ℕ
zip64_end_of_central_directory_signature = 0x06064b50

-- 2 GiB
abbrev pub max_entry_alloc : ℕ
max_entry_alloc = 2 * 1024 * 1024 * 1024

-- A `String` is the list of its bytes.
pub record ZipEntry : Type 0 where
  pub name : List ℕ
  pub compressed_size : ℕ
  pub uncompressed_size : ℕ
  pub compression_method : ℕ
  pub offset : ℕ
  pub crc32 : ℕ
  pub is_encrypted : Bool

-- The test of a signature byte by byte at index `i` of the buffer, whose first two bytes are "PK".
signature_at : List ℕ → ℕ → ℕ → ℕ → Bool
signature_at buffer c d i =
    get_or buffer i 0 == 0x50
    && get_or buffer (i + 1) 0 == 0x4b
    && get_or buffer (i + 2) 0 == c
    && get_or buffer (i + 3) 0 == d

-- `for i in (0..n).rev()`, with the index that the loop stops at.
pub last_signature : List ℕ → ℕ → ℕ → ℕ → Option ℕ
last_signature buffer c d zero = none
last_signature buffer c d (suc i) =
    let rest = last_signature buffer c d i in if signature_at buffer c d i then some i else rest

-- The search starts at the end, and gives the offset in the file.
pub find_eocd_in_buffer : List ℕ → ℕ → Option ℕ
unfolding last_signature signature_at
find_eocd_in_buffer buffer search_start =
    elim (last_signature buffer 0x05 0x06 (length buffer - 3)) [
      | none ↦ none
      | some i ↦ some (search_start + i)
    ]

pub find_zip64_eocd_offset : List ℕ → Option ℕ
unfolding last_signature signature_at
find_zip64_eocd_offset buffer = elim (last_signature buffer 0x06 0x07 (length buffer - 3)) [
  | none ↦ none
  | some i ↦
      if ltb (length buffer) (i + 16) then none else some (from_le_bytes (slice buffer (i + 8) 8))
]

-- How a walk over an extra field ends. `stuck` is no value of the program: the fuel ran out.
pub data Walk {ℓ} (A : Type ℓ) : Type ℓ where
  found : A → Walk A
  finished : Walk A
  stuck : Walk A

-- The loop that both parsers of extra fields make from index `i` on. `visit id i data_len` is the
-- body under the test of the id; it gives a value where the body leaves the loop with one.
pub walk_fields {ℓ} : {A : Type ℓ} → (ℕ → ℕ → ℕ → Option A) → List ℕ → ℕ → ℕ → Walk A
walk_fields visit extra_buf zero i = stuck
walk_fields visit extra_buf (suc fuel) i =
    let id = from_le_bytes (slice extra_buf i 2) in
    let data_len = from_le_bytes (slice extra_buf (i + 2) 2) in
    let rest = walk_fields visit extra_buf fuel (i + 4 + data_len) in
    if leb (i + 4) (length extra_buf)
    then if ltb (length extra_buf) (i + 4 + data_len)
      then finished
      else elim (visit id (i + 4) data_len) [ some a ↦ found a | none ↦ rest ]
    else finished

-- One value of the ZIP64 field: the value and the cursor after it.
pub zip64_value : List ℕ → ℕ → ℕ → ℕ → ℕ → ℕ × ℕ
zip64_value extra_buf i data_len value_32 cursor =
    if value_32 == 0xFFFFFFFF && leb (cursor + 8) data_len
    then (from_le_bytes (slice extra_buf (i + cursor) 8), cursor + 8)
    else (value_32, cursor)

-- The body under `id == 0x0001`: the uncompressed size, the compressed size and the offset.
pub zip64_values : List ℕ → ℕ → ℕ → ℕ → ℕ → ℕ → ℕ × ℕ × ℕ
unfolding zip64_value
zip64_values extra_buf i data_len compressed_size_32 uncompressed_size_32 offset_32 =
    let (uncompressed_size, c1) = zip64_value extra_buf i data_len uncompressed_size_32 0 in
    let (compressed_size, c2) = zip64_value extra_buf i data_len compressed_size_32 c1 in
    let (offset, c3) = zip64_value extra_buf i data_len offset_32 c2 in
    (uncompressed_size, compressed_size, offset)

pub zip64_visit : List ℕ → ℕ → ℕ → ℕ → ℕ → ℕ → ℕ → Option (ℕ × ℕ × ℕ)
zip64_visit extra_buf compressed_size_32 uncompressed_size_32 offset_32 id i data_len =
    if id == 0x0001
    then some (zip64_values extra_buf i data_len compressed_size_32 uncompressed_size_32 offset_32)
    else none

-- Each round moves `i` on by four at least, so `length extra_buf + 1` rounds are enough.
pub parse_zip64_extra_field : List ℕ → ℕ → ℕ → ℕ → ℕ × ℕ × ℕ
parse_zip64_extra_field extra_buf compressed_size_32 uncompressed_size_32 offset_32 =
    elim (walk_fields (zip64_visit extra_buf compressed_size_32 uncompressed_size_32 offset_32)
      extra_buf (suc (length extra_buf)) 0) [
        | found values ↦ values
        | _ ↦ (uncompressed_size_32, compressed_size_32, offset_32)
      ]

pub aes_visit : List ℕ → ℕ → ℕ → ℕ → Option ℕ
aes_visit extra_buf id i data_len =
    if id == 0x9901 && leb 7 data_len then some (get_or extra_buf (i + 4) 0) else none

-- The strength code of the first WinZip AES field that is long enough.
pub parse_aes_extra_field_buf : List ℕ → Option ℕ
parse_aes_extra_field_buf extra_buf =
    elim (walk_fields (aes_visit extra_buf) extra_buf (suc (length extra_buf)) 0) [
      | found code ↦ some code
      | _ ↦ none
    ]

-- `std::path::Component` for a Unix path.
pub data Component : Type 0 where
  root_dir cur_dir parent_dir : Component
  normal : List ℕ → Component

cons_head : ℕ → List (List ℕ) → List (List ℕ)
cons_head b [] = (b ∷ []) ∷ []
cons_head b (s ∷ ss) = (b ∷ s) ∷ ss

-- The pieces between the separators.
pub split_slash : List ℕ → List (List ℕ)
unfolding cons_head
split_slash [] = [] ∷ []
split_slash (b ∷ bs) =
    let rest = split_slash bs in if b == b'/' then [] ∷ rest else cons_head b rest

-- A piece as a component: an empty piece and a dot give none, but for a dot at the start.
pub component : Bool → List ℕ → List Component
component first s =
    if bytes_eq s []
    then []
    else if bytes_eq s (b'.' ∷ [])
    then (if first then cur_dir ∷ [] else [])
    else if bytes_eq s (b'.' ∷ b'.' ∷ [])
    then parent_dir ∷ []
    else normal s ∷ []

pub components_of : List (List ℕ) → List Component
unfolding component
components_of [] = []
components_of (s ∷ ss) = component false s ++ components_of ss

-- `Path::components` on Unix.
pub components : List ℕ → List Component
unfolding component components_of split_slash
components path = elim (split_slash path) [
  | [] ↦ []
  | s ∷ ss ↦
      (if bytes_eq (slice path 0 1) (b'/' ∷ []) then root_dir ∷ [] else component true s)
      ++ components_of ss
]

-- The filter `matches!(c, Component::Normal(_))`.
pub normals : List Component → List (List ℕ)
normals [] = []
normals (normal s ∷ cs) = s ∷ normals cs
normals (_ ∷ cs) = normals cs

-- The collected path: the pieces with a separator between two.
pub join_slash : List (List ℕ) → List ℕ
join_slash [] = []
join_slash (s ∷ []) = s
join_slash (s ∷ t ∷ ss) = s ++ (b'/' ∷ join_slash (t ∷ ss))

pub safe_path : ZipEntry → List ℕ
unfolding components normals join_slash
safe_path entry = join_slash (normals (components entry.name))
