-- ===== src/Event/Fd/Calls/Flags.antt =====
-- Flags that are set and read back.
use cpptool_box.Base.{
  ℕ, ◌≡◌, refl, sym, ap, ◌∙◌, [], ◌∷◌, some, Bool, true, false, not, ◌&&◌, ◌||◌, inl, inr,
  Bool-cases, if◌then◌else◌, ℤ, length, arith,
}
use cpptool_box.Event.Fd.{Detail, Heap}
use cpptool_box.Event.Fd.Calls.{
  Word, bit_or, bit_clear, meets, eq_word, Command, get_fl, get_fd, set_fl, set_changed, wanted,
  set_non_block, is_non_block, set_close_on_exec,
}

-- A bit of the word is set.
abbrev pub any_bit : Word → Bool
any_bit [] = false
any_bit (x ∷ w) = x || any_bit w

meets-bit_or : (w m : Word) → length w ≡ length m → meets (bit_or w m) m ≡ any_bit m
unfolding meets bit_or
meets-bit_or [] [] h = refl
meets-bit_or [] (y ∷ m) h = absurd (omega arith)
meets-bit_or (x ∷ w) [] h = absurd (omega arith)
meets-bit_or (x ∷ w) (y ∷ m) h = rw (meets-bit_or w m (omega arith)) (bits x y)
  where
    bits : (x y : Bool) → ((x || y) && y) || any_bit m ≡ (y || any_bit m)
    bits true y = refl
    bits false true = refl
    bits false false = refl

meets-bit_clear : (w m : Word) → meets (bit_clear w m) m ≡ false
unfolding meets bit_clear
meets-bit_clear [] m = refl
meets-bit_clear (x ∷ w) [] = refl
meets-bit_clear (x ∷ w) (y ∷ m) = rw (meets-bit_clear w m) (bits x y)
  where
    bits : (x y : Bool) → ((x && not y) && y) || false ≡ false
    bits true true = refl
    bits true false = refl
    bits false y = refl

eq_word-eq : (w v : Word) → eq_word w v ≡ true → w ≡ v
unfolding eq_word
eq_word-eq [] [] h = refl
eq_word-eq [] (y ∷ v) h = ground (arith, h)
eq_word-eq (x ∷ w) [] h = ground (arith, h)
eq_word-eq (true ∷ w) (true ∷ v) h = ap (λ t. true ∷ t) (eq_word-eq w v h)
eq_word-eq (true ∷ w) (false ∷ v) h = ground (arith, h)
eq_word-eq (false ∷ w) (true ∷ v) h = ground (arith, h)
eq_word-eq (false ∷ w) (false ∷ v) h = ap (λ t. false ∷ t) (eq_word-eq w v h)

-- A kernel that keeps the flags of each file and the flags of each descriptor.
module _ {K : Type 0} (fcntl : ℤ → Command → K → Word × K) (o_nonblock fd_cloexec : Word)
    (flags fd_flags : K → ℤ → Word)
    (read_back : (fd : ℤ) (k : K) → fcntl fd get_fl k ≡ (flags k fd, k))
    (fd_read_back : (fd : ℤ) (k : K) → fcntl fd get_fd k ≡ (fd_flags k fd, k))
    (stored : (enable : Bool) (fd : ℤ) (k : K)
      → flags (fcntl fd (set_fl (wanted fcntl o_nonblock fd_cloexec enable (flags k fd))) k).1 fd
        ≡ wanted fcntl o_nonblock fd_cloexec enable (flags k fd))
    (apart : (w : Word) (fd : ℤ) (k : K) → fd_flags (fcntl fd (set_fl w) k).1 fd ≡ fd_flags k fd)
    (wide : (fd : ℤ) (k : K) → length (flags k fd) ≡ length o_nonblock)
    (is_flag : any_bit o_nonblock ≡ true) where
  changed : ℤ → Word → Word → K → K
  changed = set_changed fcntl o_nonblock fd_cloexec

  now : Bool → Word → Word
  now = wanted fcntl o_nonblock fd_cloexec

  changed_lem :
      (enable : Bool) (fd : ℤ) (k : K)
      → flags (changed fd (flags k fd) (now enable (flags k fd)) k) fd ≡ now enable (flags k fd)
  unfolding changed now set_changed
  changed_lem enable fd k = elim (Bool-cases (eq_word (now enable (flags k fd)) (flags k fd))) [
    | inl e ↦ rw (e) (sym (eq_word-eq (now enable (flags k fd)) (flags k fd) e))
    | inr e ↦ rw (e) (stored enable fd k)
  ]

  meets-now : (enable : Bool) (fd : ℤ) (k : K) → meets (now enable (flags k fd)) o_nonblock ≡ enable
  unfolding now
  meets-now true fd k = meets-bit_or (flags k fd) o_nonblock (wide fd k) ∙ is_flag
  meets-now false fd k = meets-bit_clear (flags k fd) o_nonblock

  -- isNonBlock finds what setNonBlock set.
  pub is_non_block-set_non_block :
      (enable : Bool) (p : ℕ) (h : Heap) (k : K) (d : Detail)
      → h.cell p ≡ some d
      → (k' : K) × ((set_non_block fcntl o_nonblock fd_cloexec enable (some p) h k ≡ some k')
          × (is_non_block fcntl o_nonblock fd_cloexec (some p) h k' ≡ some (enable, k')))
  unfolding set_non_block is_non_block changed now
  is_non_block-set_non_block enable p h k d e =
      let k' : K = changed d.fd (flags k d.fd) (now enable (flags k d.fd)) k in
      (
        k',
        (
          rw (set_non_block, e, read_back d.fd k) refl,
          rw (is_non_block, e, read_back d.fd k')
              (ap (λ b. some (b, k'))
                (ap (λ w. meets w o_nonblock) (changed_lem enable d.fd k)
                  ∙ meets-now enable d.fd k)),
        ),
      )

  -- setCloseOnExec leaves the flags of the descriptor as they are: it stores its word as the flags of
  -- the file.
  pub set_close_on_exec_lem :
      (p : ℕ) (h : Heap) (k : K) (d : Detail)
      → h.cell p ≡ some d
      → (k' : K) × ((set_close_on_exec fcntl o_nonblock fd_cloexec (some p) h k ≡ some k')
          × (fd_flags k' d.fd ≡ fd_flags k d.fd))
  unfolding set_close_on_exec changed set_changed
  set_close_on_exec_lem p h k d e = (
    changed d.fd (fd_flags k d.fd) (bit_or (fd_flags k d.fd) fd_cloexec) k,
    (
      rw (set_close_on_exec, e, fd_read_back d.fd k) refl,
      kept (eq_word (bit_or (fd_flags k d.fd) fd_cloexec) (fd_flags k d.fd)),
    ),
  )
    where
      kept :
          (same : Bool)
          → fd_flags
              (if same then k else (fcntl d.fd (set_fl (bit_or (fd_flags k d.fd) fd_cloexec)) k).1)
              d.fd
            ≡ fd_flags k d.fd
      kept true = refl
      kept false = apart (bit_or (fd_flags k d.fd) fd_cloexec) d.fd k
