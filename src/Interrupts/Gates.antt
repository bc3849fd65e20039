-- ===== src/Interrupts/Gates.antt =====
-- What the gates of kernel/src/interrupts/idt.rs hold after the writes.
use aetherion_os.Base.{
  ℕ, ◌+◌, ◌*◌, ◌/◌, ◌^◌, ◌<◌, ◌≡◌, ◌≢◌, refl, ◌∙◌, sym, arith, at_in_range, Returns, length,
  length-set, length-replicate, get_or, get_or-set_self, get_or-set_ne, get_or-replicate, set,
}
use mathlib.Core.Path.{subst}
use aetherion_os.Base.Bits.{bit_and-low}
use aetherion_os.Interrupts.{IdtEntry, Idt, new, new_table, set_entry, set_handler, init_idt}

-- The address that the processor jumps to.
abbrev pub handler_of : IdtEntry → ℕ
handler_of e = e.offset_low + e.offset_mid * 2 ^ 16 + e.offset_high * 2 ^ 32

abbrev pub entry_at : Idt → ℕ → IdtEntry
entry_at idt index = get_or idt.entries index new

-- A present interrupt gate of ring 0 to a handler in the kernel's code segment.
pub record IsGate (e : IdtEntry) (handler : ℕ) : Type 0 where
  pub target : handler_of e ≡ handler
  pub segment : e.selector ≡ 0x08
  pub kind : e.flags ≡ 0x8E

set_entry-IsGate :
    (e : IdtEntry) (handler : ℕ) → handler < 2 ^ 64 → IsGate (set_entry e handler) handler
unfolding set_entry
set_entry-IsGate e handler h = record {
  target = omega (
    arith,
    bit_and-low 16 handler,
    bit_and-low 16 (handler / 2 ^ 16),
    bit_and-low 32 (handler / 2 ^ 32),
  );
  segment = refl;
  kind = refl;
}

-- Only the gate at `index` changes, and it leads to the handler then.
pub record Sets (idt : Idt) (index handler : ℕ) (idt' : Idt) : Type 0 where
  pub gate : IsGate (entry_at idt' index) handler
  pub others : (i : ℕ) → i ≢ index → entry_at idt' i ≡ entry_at idt i
  pub size : length idt'.entries ≡ length idt.entries

pub set_handler-Sets :
    (idt : Idt) (index handler : ℕ)
    → index < length idt.entries
    → handler < 2 ^ 64
    → Returns (set_handler idt index handler) (Sets idt index handler)
unfolding set_handler
set_handler-Sets idt index handler hi hh =
    let e = entry_at idt index in
    (
      record idt { entries = set idt.entries index (set_entry e handler) },
      rw (at_in_range idt.entries index new hi),
      record {
        gate =
            rw (get_or-set_self idt.entries index (set_entry e handler) new hi)
              (set_entry-IsGate e handler hh);
        others = λ i ne.
            get_or-set_ne idt.entries index i (set_entry e handler) new (λ same. ne (sym same));
        size = length-set idt.entries index (set_entry e handler);
      },
    )

-- The table that `init_idt` loads: three gates, and every other entry absent.
pub record IsInitial (h₀ h₁₃ h₁₄ : ℕ) (idt : Idt) : Type 0 where
  pub divide : IsGate (entry_at idt 0) h₀
  pub protection : IsGate (entry_at idt 13) h₁₃
  pub page_fault : IsGate (entry_at idt 14) h₁₄
  pub absent : (i : ℕ) → i ≢ 0 → i ≢ 13 → i ≢ 14 → entry_at idt i ≡ new
  pub size : length idt.entries ≡ 256

new_table_size : length new_table.entries ≡ 256
unfolding new_table
new_table_size = length-replicate 256 new

new_table-absent : (i : ℕ) → entry_at new_table i ≡ new
unfolding new_table
new_table-absent i = get_or-replicate 256 new i

kept-IsGate : {e e' : IdtEntry} (handler : ℕ) → e' ≡ e → IsGate e handler → IsGate e' handler
kept-IsGate handler same g = subst (λ (e : IdtEntry). IsGate e handler) (sym same) g

-- For 64-bit handler addresses init_idt does not panic; in the table that it loads the entries 0,
-- 13 and 14 are present interrupt gates of kernel code that hold the addresses of their handlers,
-- every other entry is as new, and there are 256 entries.
pub init_idt-IsInitial :
    (h₀ h₁₃ h₁₄ : ℕ)
    → h₀ < 2 ^ 64
    → h₁₃ < 2 ^ 64
    → h₁₄ < 2 ^ 64
    → Returns (init_idt h₀ h₁₃ h₁₄) (IsInitial h₀ h₁₃ h₁₄)
unfolding init_idt
init_idt-IsInitial h₀ h₁₃ h₁₄ b₀ b₁₃ b₁₄ =
    let (idt₁, e₁, s₁) = set_handler-Sets new_table 0 h₀ (omega (arith, new_table_size)) b₀ in
    let (idt₂, e₂, s₂) =
      set_handler-Sets idt₁ 13 h₁₃ (omega (arith, s₁.size, new_table_size)) b₁₃ in
    let (idt₃, e₃, s₃) =
      set_handler-Sets idt₂ 14 h₁₄ (omega (arith, s₂.size, s₁.size, new_table_size)) b₁₄ in
    (
      idt₃,
      rw (e₁, e₂) e₃,
      record {
        divide = kept-IsGate h₀ (s₃.others 0 (ground arith) ∙ s₂.others 0 (ground arith)) s₁.gate;
        protection = kept-IsGate h₁₃ (s₃.others 13 (ground arith)) s₂.gate;
        page_fault = s₃.gate;
        absent = λ i ne₀ ne₁₃ ne₁₄.
            s₃.others i ne₁₄ ∙ s₂.others i ne₁₃ ∙ s₁.others i ne₀ ∙ new_table-absent i;
        size = s₃.size ∙ s₂.size ∙ s₁.size ∙ new_table_size;
      },
    )
