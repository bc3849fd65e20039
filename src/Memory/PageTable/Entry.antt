-- ===== src/Memory/PageTable/Entry.antt =====
-- What the accessors of kernel/src/memory/page_table.rs read back, and the operations on tables.
use aetherion_os.Base.{
  ℕ, zero, suc, ◌+◌, ◌*◌, ◌/◌, ◌%◌, ◌^◌, ◌≤◌, ◌<◌, ◌≡◌, refl, bit_and, bit_or, arith, ap, sym, ◌∙◌,
  Bool, true, false, ◌!=◌, ◌==◌, if◌then◌else◌, ltb,
}
use aetherion_os.Base.Word.{not_usize, usize_mod}
use aetherion_os.Base.Bits.{bit_and-low}
use aetherion_os.Memory.PageTable.{
  PageTableFlags, present, writable, user_accessible, write_through, no_cache, accessed, dirty,
  huge_page, global, no_execute, bit_of, as_u64, has, is_present, set_address, physical_address,
  flags, put, PageTable, clear_first, zero_table, clear_all, count_first, present_count,
}
use aetherion_os.Memory.PageTable.Bits.{
  digit, digit-power, digit-not_usize, digit-bit_or, digit-bit_and, has_lem, address_field,
  mask_lem, IsFlags, set_address_lem,
}

-- An entry that holds address `addr` and flags `f`.
pub record Holds (addr f e : ℕ) : Type 0 where
  pub address : physical_address e ≡ address_field addr
  pub low_flags : flags e ≡ f % 2 ^ 12
  pub each : (flag : PageTableFlags) → has e flag ≡ has f flag

flag_bit :
    (flag : PageTableFlags) (a f : ℕ)
    → f % 2 ^ 52 < 2 ^ 12
    → digit (bit_of flag) (a % 2 ^ 40 * 2 ^ 12 + f) ≡ digit (bit_of flag) f
flag_bit present a f h = omega arith
flag_bit writable a f h = omega arith
flag_bit user_accessible a f h = omega arith
flag_bit write_through a f h = omega arith
flag_bit no_cache a f h = omega arith
flag_bit accessed a f h = omega arith
flag_bit dirty a f h = omega arith
flag_bit huge_page a f h = omega arith
flag_bit global a f h = omega arith
flag_bit no_execute a f h = omega arith

-- For flags without address bits, the entry that set_address makes has the address field of its
-- address, the low flags of its flags, and each flag exactly if they have it.
pub set_address-Holds : (e addr f : ℕ) → IsFlags f → Holds addr f (set_address e addr f)
unfolding physical_address flags
set_address-Holds e addr f h = record {
  address = mask_lem (set_address e addr f) ∙ omega (arith, set_address_lem e addr f h, h.low);
  low_flags = bit_and-low 12 (set_address e addr f) ∙ omega (arith, set_address_lem e addr f h);
  each = λ flag.
      has_lem (set_address e addr f) flag
      ∙ ap (λ (t : ℕ). digit (bit_of flag) t != 0) (set_address_lem e addr f h)
      ∙ ap (λ (t : ℕ). t != 0) (flag_bit flag (addr / 2 ^ 12) f h.low)
      ∙ sym (has_lem f flag);
}

-- `clear_first` clears what its loop has passed and nothing else.
clear_first_lem :
    (n : ℕ) (t : PageTable) (i : ℕ)
    → (clear_first n t).entries i ≡ (if ltb i n then 0 else t.entries i)
unfolding clear_first
clear_first_lem zero t i = ground arith
clear_first_lem (suc n) t i = ground (arith, clear_first_lem n t i)

pub zero_table_lem : (t : PageTable) (i : ℕ) → i < 512 → (zero_table t).entries i ≡ 0
unfolding zero_table
zero_table_lem t i h = ground (arith, clear_first_lem 512 t i)

-- `present_count` is the number of indices below 512 whose entry is present.
count_first_lem : (n : ℕ) (t : PageTable) → count_first n t ≤ n
unfolding count_first
count_first_lem zero t = omega arith
count_first_lem (suc n) t = ground (arith, count_first_lem n t)

count_first_none :
    (n : ℕ) (t : PageTable)
    → ((i : ℕ) → i < n → is_present (t.entries i) ≡ false)
    → count_first n t ≡ 0
unfolding count_first
count_first_none zero t h = refl
count_first_none (suc n) t h =
    rw (h n (omega arith)) (count_first_none n t (λ i lt. h i (omega arith)))

pub is_present-zero : is_present 0 ≡ false
unfolding has
is_present-zero = refl

-- After zero or clear_all every entry is 0 and none counts as present, and the count is never more
-- than 512.
pub clear_all_lem :
    (t : PageTable)
    → ((i : ℕ) → i < 512 → ((zero_table t).entries i ≡ 0) × ((clear_all t).entries i ≡ 0))
      × (present_count (clear_all t) ≡ 0)
      × (present_count t ≤ 512)
unfolding clear_all present_count zero_table
clear_all_lem t = (
  λ i h. (ground (arith, clear_first_lem 512 t i), ground (arith, clear_first_lem 512 t i)),
  count_first_none 512 (clear_first 512 t)
      (λ i lt. ap is_present (ground (arith, clear_first_lem 512 t i)) ∙ is_present-zero),
  count_first_lem 512 t,
)

bit_of-bound : (flag : PageTableFlags) → (bit_of flag < 64) × (as_u64 flag < usize_mod)
bit_of-bound present = (omega arith, omega arith)
bit_of-bound writable = (omega arith, omega arith)
bit_of-bound user_accessible = (omega arith, omega arith)
bit_of-bound write_through = (omega arith, omega arith)
bit_of-bound no_cache = (omega arith, omega arith)
bit_of-bound accessed = (omega arith, omega arith)
bit_of-bound dirty = (omega arith, omega arith)
bit_of-bound huge_page = (omega arith, omega arith)
bit_of-bound global = (omega arith, omega arith)
bit_of-bound no_execute = (omega arith, omega arith)

-- Setting or clearing a flag gives that flag its value and changes no other.
pub has-put :
    (e : ℕ) (flag other : PageTableFlags) (on : Bool)
    → has (put e flag on) other ≡ (if bit_of other == bit_of flag then on else has e other)
unfolding put
has-put e flag other true =
    has_lem (bit_or e (as_u64 flag)) other
    ∙ ground (
      arith,
      has_lem e other,
      digit-bit_or (bit_of other) e (as_u64 flag),
      digit-power (bit_of other) (bit_of flag),
    )
has-put e flag other false =
    has_lem (bit_and e (not_usize (as_u64 flag))) other
    ∙ ground (
      arith,
      has_lem e other,
      digit-bit_and (bit_of other) e (not_usize (as_u64 flag)),
      digit-not_usize (bit_of other) (as_u64 flag) (bit_of-bound other).0 (bit_of-bound flag).1,
      digit-power (bit_of other) (bit_of flag),
    )

pub present-lem : has (bit_or (as_u64 present) (as_u64 writable)) present ≡ true
unfolding has
present-lem = refl
