-- ===== src/Logging/Printk/Laws.antt =====
-- What printk_level and vprintk_level write to the terminal.
use dos_kernel.Common.{
  ℕ, suc, ◌+◌, ◌≤◌, ◌<◌, ◌≡◌, refl, sym, ap, ◌∙◌, arith, true, false, not, ◌&&◌, some, List, [],
  ◌∷◌, ◌++◌, length, ltb, ◌==◌, if◌then◌else◌, Bool-cases, inl, inr, get_or,
}
use dos_kernel.Logging.Printk.{
  ℤ, pos, negsuc, Log, checked_level, level_color, level_prefix, ansi_reset, newline,
  carriage_return, print_char, print_str, print_banner, print_loop, fill_buffer, vprintk_level,
  printk_level, log_debug,
}
use dos_kernel.Logging.Printk.Rows.{
  banner, row, rows, lines, Plain, ++_assoc, ++_nil, head_or, breaks, shown, shown-rows, take-all,
  lines-one,
}
use dos_kernel.Logging.Printk.Buffer.{each, take, Holds, fill_buffer-Buffered}

module _ {T : Type 0} (flanterm_write : ℕ → T → T) where
  pub each-append :
      (xs ys : List ℕ) (t : T)
      → each flanterm_write (xs ++ ys) t ≡ each flanterm_write ys (each flanterm_write xs t)
  each-append [] ys t = refl
  each-append (x ∷ xs) ys t = each-append xs ys (flanterm_write x t)

  print_str_lem :
      (cs : List ℕ) (s : Log T)
      → print_str flanterm_write cs s ≡ record s { terminal = each flanterm_write cs s.terminal }
  unfolding print_str print_char
  print_str_lem [] s = refl
  print_str_lem (c ∷ cs) s = print_str_lem cs (record s { terminal = flanterm_write c s.terminal })

  print_banner_lem :
      (k : ℕ) (s : Log T)
      → print_banner flanterm_write k s
        ≡ record s { terminal = each flanterm_write (banner k) s.terminal }
  unfolding print_banner
  print_banner_lem k s =
      let color = get_or level_color k [] in
      let prefix = get_or level_prefix k [] in
      rw
        (
          print_str_lem,
          print_str_lem,
          print_str_lem,
          each-append color (prefix ++ ansi_reset),
          each-append prefix ansi_reset,
        )
        refl

  -- One round at a byte `c` before `d`.
  loop_step :
      (rounds k i c d : ℕ) (s : Log T)
      → s.fmt_buf i ≡ c
      → s.fmt_buf (i + 1) ≡ d
      → print_loop flanterm_write (suc rounds) k i s
        ≡ print_loop flanterm_write rounds k (i + 1) (
            if c == newline && not (d == 0)
            then print_banner flanterm_write k (record s {
              terminal = flanterm_write carriage_return (flanterm_write newline s.terminal);
            })
            else record s { terminal = flanterm_write c s.terminal })
  unfolding print_loop print_char
  loop_step rounds k i c d s e f = rw (print_loop, e, f) refl

  head_lem : (b : ℕ → ℕ) (j : ℕ) (cs : List ℕ) → Holds b j cs → b j ≡ head_or cs 0
  head_lem b j [] h = h
  head_lem b j (c ∷ cs) h = h.0

  print_nil : (k i : ℕ) (s : Log T) → print_loop flanterm_write 0 k i s ≡ s
  unfolding print_loop
  print_nil k i s = refl

  print_loop_lem :
      (k i : ℕ) (xs : List ℕ) (s : Log T)
      → Holds s.fmt_buf i xs
      → print_loop flanterm_write (length xs) k i s
        ≡ record s { terminal = each flanterm_write (shown k xs) s.terminal }
  print_loop_lem k i [] s holds = print_nil k i s
  print_loop_lem k i (c ∷ cs) s (here, holds) =
      loop_step (length cs) k i c (head_or cs 0) s here (head_lem s.fmt_buf (i + 1) cs holds)
      ∙ elim (Bool-cases (breaks c cs)) [
        | inl more ↦
            let t : Log T = record s {
              terminal = flanterm_write carriage_return (flanterm_write newline s.terminal);
            } in
            rw (more, print_banner_lem k t, each-append (banner k) (shown k cs))
              (print_loop_lem k (i + 1) cs
                (record t { terminal = each flanterm_write (banner k) t.terminal }) holds)
        | inr other ↦ rw other (
            print_loop_lem k (i + 1) cs (record s { terminal = flanterm_write c s.terminal }) holds)
      ]

  -- The output of the buffer behind the carriage return.
  print_buffer :
      (k : ℕ) (xs : List ℕ) (s : Log T)
      → s.fmt_buf_pos ≡ length xs
      → Holds s.fmt_buf 0 xs
      → (print_loop flanterm_write s.fmt_buf_pos k 0 (print_banner flanterm_write k s)).terminal
        ≡ each flanterm_write (banner k ++ shown k xs) s.terminal
  print_buffer k xs s position holds =
      ap (λ n. (print_loop flanterm_write n k 0 (print_banner flanterm_write k s)).terminal)
        position
      ∙ ap (λ x. (print_loop flanterm_write (length xs) k 0 x).terminal) (print_banner_lem k s)
      ∙ ap (λ (x : Log T). x.terminal)
          (print_loop_lem k 0 xs (record s { terminal = each flanterm_write (banner k) s.terminal })
            holds)
      ∙ sym (each-append (banner k) (shown k xs) s.terminal)

  each-print_char :
      (xs : List ℕ) (s : Log T)
      → each (print_char flanterm_write) xs s
        ≡ record s { terminal = each flanterm_write xs s.terminal }
  unfolding print_char
  each-print_char [] s = refl
  each-print_char (x ∷ xs) s =
      each-print_char xs (record s { terminal = flanterm_write x s.terminal })

  ended :
      (k : ℕ) (xs : List ℕ) (t : T)
      → flanterm_write newline
          (each flanterm_write (banner k ++ xs) (flanterm_write carriage_return t))
        ≡ each flanterm_write (carriage_return ∷ (banner k ++ (xs ++ (newline ∷ [])))) t
  ended k xs t = sym (
      ap (λ l. each flanterm_write (carriage_return ∷ l) t)
        (sym (++_assoc (banner k) xs (newline ∷ [])))
      ∙ each-append (banner k ++ xs) (newline ∷ []) (flanterm_write carriage_return t))

  module _ {Args : Type 0} (format : (ℕ → Log T → Log T) → List ℕ → Args → Log T → Log T)
      (fmt : List ℕ) (list : Args) (text : List ℕ)
      (writes : (w : ℕ → Log T → Log T) (t : Log T) → format w fmt list t ≡ each w text t) where
    vprintk_level-shown :
        (level : ℤ) (k : ℕ) (s : Log T)
        → checked_level level ≡ some k
        → (vprintk_level flanterm_write format level fmt list s).terminal
          ≡ each flanterm_write
              (carriage_return ∷ (banner k ++ (shown k (take 1023 text) ++ (newline ∷ []))))
              s.terminal
    unfolding vprintk_level print_char
    vprintk_level-shown level k s ok =
        let f = fill_buffer-Buffered format fmt list text s writes in
        let xs = take 1023 text in
        let t : Log T = record (fill_buffer format fmt list s) {
          terminal = flanterm_write carriage_return (fill_buffer format fmt list s).terminal;
        } in
        rw (vprintk_level, ok)
          (ap (flanterm_write newline) (print_buffer k xs t f.position f.holds)
            ∙ ended k (shown k xs) (fill_buffer format fmt list s).terminal
            ∙ ap
                (each flanterm_write
                  (carriage_return ∷ (banner k ++ (shown k xs ++ (newline ∷ [])))))
                f.same_terminal)

    pub printk_level-row :
        (level : ℤ) (k : ℕ) (s : Log T)
        → checked_level level ≡ some k
        → (printk_level flanterm_write format level fmt list s).terminal
          ≡ each flanterm_write (row k text) s.terminal
    unfolding printk_level print_char
    printk_level-row level k s ok =
        let t : Log T = record s { terminal = flanterm_write carriage_return s.terminal } in
        rw (printk_level, ok, writes)
          (ap
              (λ (x : Log T).
                flanterm_write newline (each (print_char flanterm_write) text x).terminal)
              (print_banner_lem k t)
            ∙ ap (λ (x : Log T). flanterm_write newline x.terminal)
                (each-print_char text
                  (record t { terminal = each flanterm_write (banner k) t.terminal }))
            ∙ ap (flanterm_write newline) (sym (each-append (banner k) text t.terminal))
            ∙ ended k text s.terminal)

    -- For each level but those below LOG_DEBUG, vprintk_level prints the first 1023 bytes of a formatted text
    -- as rows, one for each line, when they contain no NUL; a newline at the end adds an empty line
    -- without a banner. `format` calls its writer on each byte of the text in turn.
    pub vprintk_level-rows :
        (level : ℤ) (k : ℕ) (s : Log T)
        → checked_level level ≡ some k
        → Plain (take 1023 text)
        → (vprintk_level flanterm_write format level fmt list s).terminal
          ≡ each flanterm_write (rows k (take 1023 text)) s.terminal
    vprintk_level-rows level k s ok plain =
        vprintk_level-shown level k s ok
        ∙ ap (λ l. each flanterm_write l s.terminal) (shown-rows k (take 1023 text) plain)

    -- For each level but those below LOG_DEBUG, printk_level and vprintk_level print the same for a text of one
    -- line with at most 1023 bytes.
    pub vprintk_level-printk_level :
        (level : ℤ) (k : ℕ) (s : Log T)
        → checked_level level ≡ some k
        → Plain text
        → (lines text).1 ≡ []
        → length text ≤ 1023
        → (vprintk_level flanterm_write format level fmt list s).terminal
          ≡ (printk_level flanterm_write format level fmt list s).terminal
    vprintk_level-printk_level level k s ok plain one short =
        let all = take-all 1023 text short in
        let only = lines-one text one in
        vprintk_level-rows level k s ok (rw all plain)
        ∙ rw (all, one, only) (ap (λ l. each flanterm_write l s.terminal) (++_nil (row k text)))
        ∙ sym (printk_level-row level k s ok)

-- Below LOG_DEBUG neither routine does anything, and above LOG_FATAL both do what they do for LOG_DEBUG.
pub levels_lem :
    {T Args : Type 0} (flanterm_write : ℕ → T → T)
    (format : (ℕ → Log T → Log T) → List ℕ → Args → Log T → Log T) (fmt : List ℕ) (list : Args)
    (n : ℕ) (s : Log T)
    → (vprintk_level flanterm_write format (negsuc n) fmt list s ≡ s)
      × (printk_level flanterm_write format (negsuc n) fmt list s ≡ s)
      × (4 < n
          → (vprintk_level flanterm_write format (pos n) fmt list s
              ≡ vprintk_level flanterm_write format (pos log_debug) fmt list s)
            × (printk_level flanterm_write format (pos n) fmt list s
                ≡ printk_level flanterm_write format (pos log_debug) fmt list s))
unfolding vprintk_level printk_level checked_level
levels_lem flanterm_write format fmt list n s = (
  refl,
  refl,
  λ h.
      let above : ltb 4 n ≡ true = ground arith in
      let kept : ltb n 0 ≡ false = ground arith in
      (rw (vprintk_level, kept, above) refl, rw (printk_level, kept, above) refl),
)
