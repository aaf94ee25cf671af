-- ===== src/Memory/Paging/Grow.antt =====
-- The step that adds a table: a free frame is cleared and linked into an absent entry.
use dos_kernel.Common.{
  ℕ, zero, suc, ◌+◌, ◌*◌, ◌%◌, ◌^◌, ◌<◌, ◌≡◌, ◌≢◌, ◌⊎◌, sym, ap, ap₂, subst, ◌∙◌, arith, true,
  false, none, some, Bool-cases, inl, inr,
}
use native.Mathlib.Decide.{ℕ_discrete}
use dos_kernel.Memory.Machine.{Machine, Memory, write, clear}
use dos_kernel.Memory.Paging.{index, present, child_at, entry_from}
use dos_kernel.Memory.Paging.Entries.{index-lt, zero_absent}
use dos_kernel.Memory.Paging.Tree.{
  Owner, own_table, Tables, Extends, entry_from-zero, entry_from-present, entry_from-absent,
  entry_from-empty,
}

pub same_word :
    (t u i j : ℕ)
    → t % 4096 ≡ 0
    → u % 4096 ≡ 0
    → i < 512
    → j < 512
    → t + 8 * i ≡ u + 8 * j
    → (t ≡ u) × (i ≡ j)
same_word t u i j ht hu hi hj e = omega arith

abbrev pub grown : Memory → (c t₀ i₀ e : ℕ) → Memory
grown m c t₀ i₀ e = write (clear m c 4096) (t₀ + 8 * i₀) e

module _ (m : Memory) (c t₀ i₀ e : ℕ) (hc : c % 4096 ≡ 0) (ht : t₀ % 4096 ≡ 0) (hi : i₀ < 512)
    (ne : t₀ ≢ c) where
  grown_link : grown m c t₀ i₀ e (t₀ + 8 * i₀) ≡ e
  grown_link = ground arith

  grown_new : (i : ℕ) → i < 512 → grown m c t₀ i₀ e (c + 8 * i) ≡ 0
  grown_new i h = ground (arith, same_word c t₀ i i₀)

  pub grown_other :
      (u i : ℕ)
      → u % 4096 ≡ 0
      → i < 512
      → u ≢ c
      → ¬ ((u ≡ t₀) × (i ≡ i₀))
      → grown m c t₀ i₀ e (u + 8 * i) ≡ m (u + 8 * i)
  grown_other u i hu h ne' out = ground (arith, same_word u t₀ i i₀)

-- The step from `s` to `t`: the empty table at `c` is linked into slot `i₀` of the table `t₀`.
pub record Growth (own : Owner) (s t : Machine) (l₀ p₀ t₀ i₀ c e : ℕ) : Type 0 where
  pub tables : Tables own s
  pub at : own t₀ ≡ some (suc l₀, p₀)
  pub in_table : i₀ < 512
  pub absent : present (s.mem (t₀ + 8 * i₀)) ≡ false
  pub page : c % 4096 ≡ 0
  pub in_range : c < 2 ^ 64
  pub unused : own c ≡ none
  pub is_present : present e ≡ true
  pub leads : child_at s.offset e ≡ c
  pub window : t.offset ≡ s.offset
  pub becomes : t.mem ≡ grown s.mem c t₀ i₀ e

either_slot : (u i t₀ i₀ : ℕ) → ((u ≡ t₀) × (i ≡ i₀)) ⊎ (¬ ((u ≡ t₀) × (i ≡ i₀)))
either_slot u i t₀ i₀ = elim (ℕ_discrete u t₀) [
  | yes e ↦ elim (ℕ_discrete i i₀) [ yes f ↦ inl (e, f) | no n ↦ inr λ h. n h.1 ]
  | no n ↦ inr λ h. n h.0
]

module _ {own : Owner} {s t : Machine} {l₀ p₀ t₀ i₀ c e : ℕ}
    (g : Growth own s t l₀ p₀ t₀ i₀ c e) where
  open g use {
    tables, at, in_table, absent, page, in_range, unused, is_present, leads, window, becomes,
  }

  pub not_new : (u : ℕ) {x : ℕ × ℕ} → own u ≡ some x → u ≢ c
  not_new u o eq = cc (ap own eq)

  pub link : t.mem (t₀ + 8 * i₀) ≡ e
  link =
      rw becomes (grown_link s.mem c t₀ i₀ e page (tables.aligned t₀ at).0 in_table (not_new t₀ at))

  new_empty : (i : ℕ) → i < 512 → t.mem (c + 8 * i) ≡ 0
  new_empty i h =
      rw becomes
        (grown_new s.mem c t₀ i₀ e page (tables.aligned t₀ at).0 in_table (not_new t₀ at) i h)

  other :
      (u i : ℕ) {x : ℕ × ℕ}
      → own u ≡ some x
      → i < 512
      → ¬ ((u ≡ t₀) × (i ≡ i₀))
      → t.mem (u + 8 * i) ≡ s.mem (u + 8 * i)
  other u i o h out = rw becomes (
      grown_other s.mem c t₀ i₀ e page (tables.aligned t₀ at).0 in_table (not_new t₀ at) u i
        (tables.aligned u o).0 h (not_new u o) out)

  child_kept :
      (a : ℕ) → t.mem a ≡ s.mem a → child_at t.offset (t.mem a) ≡ child_at s.offset (s.mem a)
  child_kept a same = ap₂ child_at window same

  grow_hit :
      (l v : ℕ) → index v (l + 2) ≡ i₀ → entry_from (suc l) t₀ v t ≡ entry_from (suc l) t₀ v s
  grow_hit l v ei =
      let (a, h) = tables.aligned t₀ at in
      let linked : t.mem (t₀ + 8 * index v (l + 2)) ≡ e = rw ei link in
      let to_c : child_at t.offset (t.mem (t₀ + 8 * index v (l + 2))) ≡ c =
        ap₂ child_at window linked ∙ leads in
      let found : entry_from (suc l) t₀ v t ≡ 0 =
        entry_from-present l t₀ v t a h (rw linked is_present)
        ∙ ap (λ (x : ℕ). entry_from l x v t) to_c
        ∙ entry_from-empty l c v t page in_range new_empty in
      found ∙ sym (entry_from-absent l t₀ v s a h (rw ei absent))

  -- Nothing that was found before the step is lost, and nothing new is found.
  grow_lookup : (l u p v : ℕ) → own u ≡ some (l, p) → entry_from l u v t ≡ entry_from l u v s
  grow_lookup zero u p v o =
      let (a, h) = tables.aligned u o in
      rw (entry_from-zero u v t a h, entry_from-zero u v s a h)
        (other u (index v 1) o (index-lt v 1) λ (eq, _). cc (o, at, ap own eq))
  grow_lookup (suc l) u p v o =
      let (a, h) = tables.aligned u o in
      let i = index v (l + 2) in
      let small = index-lt v (l + 2) in
      elim (either_slot u i t₀ i₀) [
        | inl (eq, ei) ↦
            subst (λ x. entry_from (suc l) x v t ≡ entry_from (suc l) x v s) (sym eq)
              (grow_hit l v ei)
        | inr out ↦
            let same : t.mem (u + 8 * i) ≡ s.mem (u + 8 * i) = other u i o small out in
            elim (Bool-cases (present (s.mem (u + 8 * i)))) [
              | inl there ↦
                  entry_from-present l u v t a h (rw same there)
                  ∙ ap (λ (x : ℕ). entry_from l x v t) (child_kept (u + 8 * i) same)
                  ∙ grow_lookup l (child_at s.offset (s.mem (u + 8 * i))) (p * 512 + i) v
                      (tables.child u l p i o small there)
                  ∙ sym (entry_from-present l u v s a h there)
              | inr gone ↦
                  entry_from-absent l u v t a h (rw same gone)
                  ∙ sym (entry_from-absent l u v s a h gone)
            ]
      ]

  abbrev pub own' : Owner
  own' = own_table own c l₀ (p₀ * 512 + i₀)

  own_old : (u : ℕ) {x : ℕ × ℕ} → own u ≡ some x → own' u ≡ some x
  own_old u o = let ne = not_new u o in ground arith

  pub own_cases :
      (u : ℕ) (x : ℕ × ℕ)
      → own' u ≡ some x
      → ((u ≡ c) × (x ≡ (l₀, p₀ * 512 + i₀))) ⊎ (own u ≡ some x)
  own_cases u x o = ground arith

  -- The entries of the tables after the step lead where their owners say.
  child_new :
      (u l p i : ℕ)
      → u ≡ c
      → i < 512
      → present (t.mem (u + 8 * i)) ≡ true
      → own' (child_at t.offset (t.mem (u + 8 * i))) ≡ some (l, p * 512 + i)
  child_new u l p i eq h there =
      let empty : t.mem (u + 8 * i) ≡ 0 = rw eq (new_empty i h) in
      cc (there, zero_absent, ap present empty)

  child_link :
      (u l p i : ℕ)
      → own u ≡ some (suc l, p)
      → u ≡ t₀
      → i ≡ i₀
      → own' (child_at t.offset (t.mem (u + 8 * i))) ≡ some (l, p * 512 + i)
  child_link u l p i o eq ei =
      let there : t.mem (u + 8 * i) ≡ e = rw (eq, ei) link in
      let to_c : child_at t.offset (t.mem (u + 8 * i)) ≡ c = ap₂ child_at window there ∙ leads in
      let same : own t₀ ≡ some (suc l, p) = rw eq at o in ap own' to_c ∙ ground arith

  child_old :
      (u l p i : ℕ)
      → own u ≡ some (suc l, p)
      → i < 512
      → ¬ ((u ≡ t₀) × (i ≡ i₀))
      → present (t.mem (u + 8 * i)) ≡ true
      → own' (child_at t.offset (t.mem (u + 8 * i))) ≡ some (l, p * 512 + i)
  child_old u l p i o h out there =
      let same = other u i o h out in
      let there' : present (s.mem (u + 8 * i)) ≡ true = ap present (sym same) ∙ there in
      ap own' (child_kept (u + 8 * i) same) ∙ own_old _ (tables.child u l p i o h there')

  pub grow-Extends : Extends own s own' t
  grow-Extends = record {
    window = window;
    keeps = own_old;
    entries = λ u i o h there. other u i o h λ (eq, ei). cc (eq, ei, there, absent);
    lookups = grow_lookup;
  }

  pub grow-Tables : Tables own' t
  grow-Tables = record {
    aligned = λ u {x} o. elim (own_cases u x o) [
      | inl (eq, _) ↦ (rw eq page, rw eq in_range)
      | inr old ↦ tables.aligned u old
    ];
    child = λ u l p i o h there. elim (own_cases u (suc l, p) o) [
      | inl (eq, _) ↦ child_new u l p i eq h there
      | inr old ↦ elim (either_slot u i t₀ i₀) [
        | inl (eq, ei) ↦ child_link u l p i old eq ei
        | inr out ↦ child_old u l p i old h out there
      ]
    ];
  }
