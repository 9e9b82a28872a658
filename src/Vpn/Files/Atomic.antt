-- ===== src/Vpn/Files/Atomic.antt =====
-- core/internal/vpn/types.go: what SavePrivate leaves on the disk.
use easyprivacy.Vpn.Files.{
  removed, loaded, seen, read_private, not_there, Look, first_error, File, Faults, save_private,
  private_mode, written, created, closed, renamed,
}
use easyprivacy.Base.{
  Option-cases, length, true, ◌≤◌, done, lookup-insert, same_refl, lookup-delete, insert, arith,
  delete, inr, inl, ◌∙◌, refl, if◌then◌else◌, lookup, Error, same, Option, Dict, Text, some, none,
  false, ◌⊎◌, ◌≡◌,
}
use easyprivacy.Platform.{Decoder}

-- What may stand under the temporary name in the end: nothing where it can be removed.
abbrev pub leftover : Faults → Option File → Option File
leftover f file = elim f.remove_error [ none ↦ none | some e ↦ file ]

-- An error is given, and every file but the temporary one is as it was; or the path holds the new file in full, and
-- every other name, the temporary one too, has what it had.
abbrev pub Atomic : Faults → (temp path raw : Text) (old new : Dict File) → Option Error → Type 0
Atomic f temp path raw old new e =
    (¬ (e ≡ none)
      × ((k : Text)
          → lookup k new ≡ (if same temp k then leftover f (lookup temp new) else lookup k old)))
    ⊎ ((k : Text)
        → lookup k new ≡ (
            if same path k
            then some (record { mode = private_mode; content = raw })
            else lookup k old))

-- A file that is made under a free name, and removed again if it can be.
made_again :
    (f : Faults) (temp path raw k : Text) (file : File) (disk : Dict File)
    → lookup temp disk ≡ none
    → let new = removed f temp path raw (insert temp file disk) in
      lookup k new ≡ (if same temp k then leftover f (lookup temp new) else lookup k disk)
made_again f temp path raw k file disk n = elim (Option-cases f.remove_error) [
  | inl p ↦
      rw p (
        ground
          (arith, lookup-delete temp k (insert temp file disk), lookup-insert temp k file disk))
  | inr (e, p) ↦ rw p (
      ground
        (arith, lookup-insert temp k file disk, lookup-insert temp temp file disk, same_refl temp))
]

-- A file that is renamed.
moved :
    (f : Faults) (temp path raw k : Text) (file : File) (disk : Dict File)
    → lookup temp disk ≡ none
    → same path temp ≡ false
    → lookup k (removed f temp path raw (insert path file (delete temp (insert temp file disk))))
      ≡ (if same path k then some file else lookup k disk)
moved f temp path raw k file disk n d = elim (Option-cases f.remove_error) [
  | inl p ↦ rw p (
      ground (
        arith,
        lookup-delete temp k (insert path file (delete temp (insert temp file disk))),
        lookup-insert path k file (delete temp (insert temp file disk)),
        lookup-delete temp k (insert temp file disk),
        lookup-insert temp k file disk,
        n,
        d,
      ))
  | inr (e, p) ↦ rw p (
      ground (
        arith,
        lookup-insert path k file (delete temp (insert temp file disk)),
        lookup-delete temp k (insert temp file disk),
        lookup-insert temp k file disk,
        n,
        d,
      ))
]

module _ (f : Faults) (temp path raw : Text) where
  abbrev whole_file : File
  whole_file = record { mode = private_mode; content = raw }

  written-whole :
      (c w : Option Error)
      → (written f temp path raw c w).1 ≡ none
      → (written f temp path raw c w).0 ≡ whole_file
  written-whole (some e) w h = absurd (ground arith)
  written-whole none none h = refl
  written-whole none (some e) h = absurd (ground arith)

  undone-Atomic :
      (disk : Dict File) (file : File) (e : Error)
      → lookup temp disk ≡ none
      → Atomic f temp path raw disk (removed f temp path raw (insert temp file disk)) (some e)
  undone-Atomic disk file e n =
      inl (λ h. absurd (ground arith), λ k. made_again f temp path raw k file disk n)

  renamed-Atomic :
      (disk : Dict File) (r : Option Error)
      → same path temp ≡ false
      → lookup temp disk ≡ none
      → let t = renamed f temp path raw whole_file r (insert temp whole_file disk) in
        Atomic f temp path raw disk t.0 t.1
  renamed-Atomic disk (some e) d n = undone-Atomic disk whole_file e n
  renamed-Atomic disk none d n = inr (λ k. moved f temp path raw k whole_file disk n d)

  closed-Atomic :
      (disk : Dict File) (file : File) (e : Option Error)
      → same path temp ≡ false
      → lookup temp disk ≡ none
      → (e ≡ none → file ≡ whole_file)
      → let t = closed f temp path raw file e (insert temp file disk) in
        Atomic f temp path raw disk t.0 t.1
  closed-Atomic disk file (some e) d n k = undone-Atomic disk file e n
  closed-Atomic disk file none d n k = rw (k refl) (renamed-Atomic disk f.rename_error d n)

  first_error-none : (a b : Option Error) → first_error a b ≡ none → a ≡ none
  first_error-none none b h = refl
  first_error-none (some e) b h = absurd (ground arith)

  created-Atomic :
      (disk : Dict File) (e : Option Error)
      → same path temp ≡ false
      → lookup temp disk ≡ none
      → let t = created f temp path raw e disk in Atomic f temp path raw disk t.0 t.1
  created-Atomic disk (some e) d n = inl (
    λ h. absurd (ground arith),
    λ k. rw n (elim (Option-cases f.remove_error) [
      | inl p ↦ rw p (untouched k)
      | inr (x, p) ↦ rw p (untouched k)
    ]),
  )
    where
      untouched : (k : Text) → lookup k disk ≡ (if same temp k then none else lookup k disk)
      untouched k = ground (arith, n)
  created-Atomic disk none d n =
      let w = written f temp path raw f.chmod_error f.write_error in
      closed-Atomic disk w.0 (first_error w.1 f.close_error) d n
        (λ h. written-whole f.chmod_error f.write_error (first_error-none w.1 f.close_error h))

  -- Where the temporary name is no file's and not the path, whatever fails, the removal of the temporary file too: an
  -- error is given, and every file is as it was but the temporary one, which is left only where its removal fails; or
  -- the path holds the new file in full, private, and every other file is as it was.
  pub save_private-Atomic :
      (disk : Dict File)
      → same path temp ≡ false
      → lookup temp disk ≡ none
      → Atomic f temp path raw disk
          (save_private f temp path raw disk).0
          (save_private f temp path raw disk).1
  unfolding save_private
  save_private-Atomic disk d n = created-Atomic disk f.create_error d n

-- What os.Lstat and os.ReadFile find of a file of the disk.
abbrev pub look_at : Option File → Look
look_at none = not_there
look_at (some file) = seen true file.mode (length file.content) (done file.content)

kept_whole :
    (f : Faults) (temp path raw : Text) (old new : Dict File) (e : Option Error)
    → Atomic f temp path raw old new e
    → e ≡ none
    → lookup path new ≡ some (record { mode = private_mode; content = raw })
kept_whole f temp path raw old new e (inl (n, k)) h = absurd (n h)
kept_whole f temp path raw old new e (inr k) h = k path ∙ rw (same_refl path) refl

module _ {A : Type 0} (d : Decoder A) (broken : Error) (f : Faults) (temp path raw : Text) where
  -- What SavePrivate saved without an error, of 131072 bytes at most, is what ReadPrivate gives back, where the
  -- text decodes to the value with nothing but blanks behind it.
  pub read_private-save_private :
      (disk : Dict File) (a : A) (rest : Text)
      → same path temp ≡ false
      → lookup temp disk ≡ none
      → d.decode raw ≡ some (a, rest)
      → d.at_end rest ≡ true
      → length raw ≤ 131072
      → (save_private f temp path raw disk).1 ≡ none
      → read_private d broken (look_at (lookup path (save_private f temp path raw disk).0))
        ≡ loaded a
  unfolding read_private
  read_private-save_private disk a rest distinct free decodes ends short ok =
      let new =
        kept_whole f temp path raw disk _ _ (save_private-Atomic f temp path raw disk distinct free)
          ok in
      rw (new, decodes) (ground (arith, ends, short))
