-- ===== src/Options.antt =====
-- src/lib.rs: `EntryOptions` and `ZipStats`.
use Prim.Native.Nat.{bit_or}
use s_zip.Common.{
  ℕ, ◌+◌, ◌-◌, ◌*◌, ◌/◌, ◌%◌, ◌^◌, Bool, List, [], ◌∷◌, ◌++◌, Option, none, some, leb, ltb,
  if◌then◌else◌, min, max, to_le_bytes, u16_mod, u32_mod,
}

-- A `SystemTime`, by its whole seconds from the Unix epoch on; an earlier one counts as the epoch.
pub data SystemTime : Type 0 where
  before_epoch : SystemTime
  since_epoch : ℕ → SystemTime

pub record EntryOptions : Type 0 where
  pub mtime : Option SystemTime
  pub unix_mode : Option ℕ

-- `EntryOptions::default()`
abbrev pub default_options : EntryOptions
default_options = record { mtime = none; unix_mode = none }

abbrev seconds : SystemTime → ℕ
seconds before_epoch = 0
seconds (since_epoch secs) = secs

-- The calendar date of a day: year, month and day. The day count is not negative, so neither is `z`,
-- and the era is a plain quotient.
pub civil_date : ℕ → ℕ × ℕ × ℕ
civil_date days_since_epoch =
    let z = days_since_epoch + 719_468 in
    let era = z / 146_097 in
    let doe = z - era * 146_097 in
    let yoe = (doe - doe / 1460 + doe / 36_524 - doe / 146_096) / 365 in
    let y = yoe + era * 400 in
    let doy = doe - (365 * yoe + yoe / 4 - yoe / 100) in
    let mp = (5 * doy + 2) / 153 in
    let day = doy - (153 * mp + 2) / 5 + 1 in
    let month = if ltb mp 10 then mp + 3 else mp - 9 in
    let year = if leb month 2 then y + 1 else y in (year, month, day)

abbrev shl_u16 : ℕ → ℕ → ℕ
shl_u16 v k = v * 2 ^ k % u16_mod

-- The time of a day and the date in their 16 bits each.
pub pack_datetime : ℕ → ℕ → ℕ → ℕ → ℕ × ℕ
pack_datetime time_of_day year month day =
    let hour = time_of_day / 3600 in
    let minute = time_of_day % 3600 / 60 in
    let second = time_of_day % 60 in
    let dos_year = min 2107 (max 1980 year) - 1980 in
    (
      bit_or (bit_or (shl_u16 hour 11) (shl_u16 minute 5)) (second / 2),
      bit_or (bit_or (shl_u16 dos_year 9) (shl_u16 month 5)) day,
    )

unfoldable pub msdos_datetime : EntryOptions → ℕ × ℕ
unfolding civil_date pack_datetime
msdos_datetime options = elim options.mtime [
  | none ↦ (0, 0)
  | some mtime ↦
      let secs = seconds mtime in
      let (year, month, day) = civil_date (secs / 86400) in
      pack_datetime (secs % 86400) year month day
]

unfoldable pub unix_extra_field : EntryOptions → List ℕ
unix_extra_field options = elim options.unix_mode [
  | none ↦ []
  | some mode ↦
      to_le_bytes 2 0x7875
      ++ (to_le_bytes 2 11 ++ (1 ∷ 4 ∷ to_le_bytes 4 0 ++ (4 ∷ to_le_bytes 4 0)))
]

-- `m << 16` on 32 bits.
unfoldable pub external_attrs : EntryOptions → ℕ
external_attrs options = elim options.unix_mode [ none ↦ 0 | some m ↦ m * 2 ^ 16 % u32_mod ]

-- The ratio, a quotient of the two sums as floats, is not modelled.
pub record ZipStats : Type 0 where
  pub entry_count : ℕ
  pub total_uncompressed_bytes : ℕ
  pub total_compressed_bytes : ℕ
  pub encrypted : Bool

pub bytes_saved : ZipStats → ℕ
bytes_saved s = s.total_uncompressed_bytes - s.total_compressed_bytes
