-- ===== src/Memory/Vm/Translate.antt =====
-- vm_virt_to_phys on mapped pages.
use dos_kernel.Common.{
  ℕ, ◌+◌, ◌*◌, ◌/◌, ◌%◌, ◌^◌, ◌≤◌, ◌<◌, ◌≡◌, ◌≢◌, ◌⊎◌, inl, inr, refl, ap, ◌∙◌, arith, true, false,
  List, length, bit_and, bit_or, ◌==◌, ok,
}
use dos_kernel.Common.Bits.{bit_or_split, bit_or-zero, zero-bit_or, bit_and_mask, bit_or_fields}
use dos_kernel.Memory.Machine.{Machine}
use dos_kernel.Memory.Paging.{
  present, leaf_entry, entry_from, paging_get_entry, entry_4k_address_mask,
}
use dos_kernel.Memory.Paging.Entries.{address_field, low_or, odd_present}
use dos_kernel.Memory.Paging.Tree.{Owner}
use dos_kernel.Memory.Vm.{vm_map, vm_virt_to_phys}
use dos_kernel.Memory.Vm.Space.{IsSpace}
use dos_kernel.Memory.Vm.Map.{pages_of, vm_map-Mapped}

one_or : (f : ℕ) → bit_or 1 f ≡ f / 2 * 2 + 1
one_or f =
    let whole : f ≡ f / 2 * 2 ^ 1 + f % 2 = omega arith in
    let low : bit_or 1 (f % 2) ≡ 1 =
      let bits : (f % 2 ≡ 0) ⊎ (f % 2 ≡ 1) = omega arith in
      elim bits [ inl z ↦ rw z refl | inr o ↦ rw o refl ] in
    ap (bit_or 1) whole
    ∙ bit_or_split 1 0 1 (f / 2) (f % 2) (omega arith) (omega arith)
    ∙ omega (arith, low, zero-bit_or (f / 2))

-- An entry of a lowest table as arithmetic.
leaf_entry_lem :
    (p flags : ℕ)
    → p % 4096 ≡ 0
    → p < 2 ^ 52
    → flags < 4096
    → leaf_entry p flags ≡ p / 4096 * 2 ^ 12 + (flags / 2 * 2 + 1)
unfolding leaf_entry
leaf_entry_lem p flags whole small few =
    let q = p / 4096 in
    let field : bit_and p entry_4k_address_mask ≡ q * 2 ^ 12 = address_field p ∙ omega arith in
    let low : bit_or 1 (q * 2 ^ 12) ≡ q * 2 ^ 12 + 1 = low_or 1 q (omega arith) in
    let split : flags ≡ 0 * 2 ^ 12 + flags = omega arith in
    rw (field, low)
      (ap (bit_or (q * 2 ^ 12 + 1)) split
        ∙ bit_or_split 12 q 1 0 flags (omega arith) few
        ∙ omega (arith, bit_or-zero q, one_or flags))

-- The address behind a page that is mapped to the frame `p`.
pub vm_virt_to_phys-mapped :
    (space root w p flags : ℕ) (s : Machine)
    → space ≢ 0
    → s.mem space ≡ root
    → entry_from 3 root w s ≡ leaf_entry p flags
    → p % 4096 ≡ 0
    → p < 2 ^ 52
    → flags < 4096
    → vm_virt_to_phys space w s ≡ ok (p + w % 4096) s
unfolding vm_virt_to_phys paging_get_entry
vm_virt_to_phys-mapped space root w p flags s nz at found whole small few =
    let q = p / 4096 in
    let entry : entry_from 3 root w s ≡ q * 2 ^ 12 + (flags / 2 * 2 + 1) =
      found ∙ leaf_entry_lem p flags whole small few in
    let z : (space == 0) ≡ false = ground arith in
    let there : present (q * 2 ^ 12 + (flags / 2 * 2 + 1)) ≡ true = odd_present _ (omega arith) in
    let frame : bit_and (q * 2 ^ 12 + (flags / 2 * 2 + 1)) entry_4k_address_mask ≡ q * 2 ^ 12 =
      address_field _ ∙ omega arith in
    let place : bit_and w 0xFFF ≡ w % 4096 = bit_and_mask 12 w in
    let sum : bit_or (q * 2 ^ 12) (w % 4096) ≡ p + w % 4096 =
      bit_or_fields 12 q (w % 4096) (omega arith) ∙ omega arith in
    rw (z, at, entry, there, frame, place, sum) refl

-- The address at `k` in the range that vm_map has just mapped is `k` behind the address that was mapped, in a
-- physical memory of 2 ^ 52 bytes, with the hypotheses under which vm_map maps.
pub vm_virt_to_phys-vm_map :
    (own : Owner) (ps : List ℕ) (space root v paddr size flags k : ℕ) (rs : List (ℕ × ℕ))
    (s : Machine)
    → IsSpace own ps space root rs s
    → space ≢ 0
    → s.mem (space + 24) ≡ v
    → 0 < size
    → size < 2 ^ 47
    → v % 4096 ≡ 0
    → paddr % 4096 ≡ 0
    → v + pages_of size * 4096 ≤ s.mem (space + 16)
    → s.mem (space + 16) < 2 ^ 64
    → paddr + pages_of size * 4096 ≤ 2 ^ 52
    → flags < 4096
    → 3 * pages_of size + 1 ≤ length ps
    → k < size
    → (t : Machine) × (vm_map space paddr size flags s ≡ ok v t)
      × (vm_virt_to_phys space (v + k) t ≡ ok (paddr + k) t)
vm_virt_to_phys-vm_map own ps space root v paddr size flags k rs s is nz at pos small av ap' room
      end hp few enough inside =
    let m =
      vm_map-Mapped own ps space root v paddr size flags rs s is nz at pos small av ap' room end
        (omega arith) enough in
    let i = k / 4096 in
    let found : entry_from 3 root (v + k) m.after ≡ leaf_entry (paddr + i * 4096) flags =
      m.here i (v + k) (omega arith) (omega arith) in
    let sum : paddr + i * 4096 + (v + k) % 4096 ≡ paddr + k = omega arith in
    (
      m.after,
      m.runs,
      vm_virt_to_phys-mapped space root (v + k) (paddr + i * 4096) flags m.after nz
            m.is_space.tables found (omega arith) (omega arith) few
          ∙ ap (λ x. ok x m.after) sum,
    )
