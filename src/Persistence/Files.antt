-- ===== src/Persistence/Files.antt =====
-- What writes and loads do to the files.
use trading_binance.Base.{
  ◌≡◌, refl, ◌∙◌, ap, arith, true, false, String, str_eq, eq_iff, Option, none, some, ◌⊎◌, inl, inr,
}
use trading_binance.Py.{Call, answer}
use trading_binance.Persistence.{
  StatePath, target, temporary, quarantined, Disk, same_path, put, Write, written, interrupted,
  Done, done, refused, replace, replace_if, atomic_write_text, Parsed, malformed, object,
  other_root, Loaded, read, load_parsed, load_content, load_json_safe,
}

str_eq_refl : (s : String) → str_eq s s ≡ true
str_eq_refl s = (eq_iff s s).1 refl

some_of : {A : Type 0} {a b : A} → some a ≡ some b → a ≡ b
some_of e = ground arith

put_same :
    (p : StatePath) (c : Option String) (disk : Disk) → same_path p p ≡ true → put p c disk p ≡ c
unfolding put
put_same p c disk h = ground arith

put_other :
    (p other : StatePath) (c : Option String) (disk : Disk)
    → same_path p other ≡ false
    → put p c disk other ≡ disk other
unfolding put
put_other p other c disk h = ground arith

target_same : (path : String) → same_path (target path) (target path) ≡ true
unfolding same_path
target_same path = str_eq_refl path

temporary_same : (path : String) → same_path (temporary path) (temporary path) ≡ true
unfolding same_path
temporary_same path = str_eq_refl path

quarantined_same :
    (path stamp : String) → same_path (quarantined path stamp) (quarantined path stamp) ≡ true
unfolding same_path
quarantined_same path stamp = ground (arith, str_eq_refl path, str_eq_refl stamp)

apart : (path other : String) → same_path (temporary path) (target other) ≡ false
unfolding same_path
apart path other = refl

bad_apart : (path stamp : String) → same_path (target path) (quarantined path stamp) ≡ false
unfolding same_path
bad_apart path stamp = refl

-- What a reader finds of the file after a write: the new text where the write returns, and the
-- file as it was where it raises; every other file but the temporary one is as before.
pub record IsAtomic (path content : String) (disk after : Disk) (out : Call (Unit {0}))
    : Type 0 where
  pub new : out ≡ answer tt → after (target path) ≡ some content
  pub old : (out ≡ answer tt → ⊥) → after (target path) ≡ disk (target path)
  pub others :
      (other : StatePath)
      → same_path (target path) other ≡ false
      → same_path (temporary path) other ≡ false
      → after other ≡ disk other

-- Whatever fails during an atomic write, its file holds the whole new text where the write returns
-- and is as it was where the write raises, and no file but it and its temporary one is changed.
pub atomic_write_text_lem :
    (write : Write) (replaced : Done) (path content : String) (disk : Disk)
    → let (out, after) = atomic_write_text write replaced path content disk in
      IsAtomic path content disk after out
unfolding atomic_write_text replace_if replace
atomic_write_text_lem written done path content disk = record {
  new = λ e.
      put_other (temporary path) (target path) _ _ (apart path path)
      ∙ put_same (target path) _ _ (target_same path)
      ∙ put_same (temporary path) _ _ (temporary_same path);
  old = λ h. absurd (h refl);
  others = λ other a b.
      put_other (temporary path) other _ _ b
      ∙ put_other (target path) other _ _ a
      ∙ put_other (temporary path) other _ _ b;
}
atomic_write_text_lem written refused path content disk = record {
  new = λ e. ground arith;
  old = λ h. put_other (temporary path) (target path) _ _ (apart path path);
  others = λ other a b. put_other (temporary path) other _ _ b;
}
atomic_write_text_lem (interrupted part) replaced path content disk = record {
  new = λ e. ground arith;
  old = λ h. put_other (temporary path) (target path) _ _ (apart path path);
  others = λ other a b. put_other (temporary path) other _ _ b;
}

module _ {D : Type 0} (parse : String → Parsed D) where
  -- What a load leaves of a content: the content in its place and its object as the result, or no
  -- result, and the content in its place or in the quarantine.
  abbrev pub Keeps : String → String → String → Loaded D → Disk → Type 0
  Keeps path stamp content loaded after =
      ((d : D)
        → loaded.data_of ≡ some d
        → (parse content ≡ object d) × (after (target path) ≡ some content))
      × ((after (target path) ≡ some content)
          ⊎ ((loaded.data_of ≡ none)
              × (loaded.corrupt ≡ true)
              × (after (quarantined path stamp) ≡ some content)))

  load-Keeps :
      (parsed : Parsed D) (moved : Done) (stamp path content : String) (disk : Disk)
      → disk (target path) ≡ some content
      → ((d : D) → parsed ≡ object d → parse content ≡ object d)
      → let out = load_parsed parse parsed moved stamp path disk in
        Keeps path stamp content out.0 out.1
  unfolding load_parsed replace_if replace
  load-Keeps (object d) moved stamp path content disk e h =
      (λ d' g. (h d' (ap object (some_of g)), e), inl e)
  load-Keeps other_root moved stamp path content disk e h = (λ d' g. ground arith, inl e)
  load-Keeps malformed refused stamp path content disk e h = (λ d' g. ground arith, inl e)
  load-Keeps malformed done stamp path content disk e h = (
    λ d' g. ground arith,
    inr (
      refl,
      refl,
      put_other (target path) (quarantined path stamp) _ _ (bad_apart path stamp)
          ∙ put_same (quarantined path stamp) _ _ (quarantined_same path stamp)
          ∙ e,
    ),
  )

  read_object :
      (opened : Done) (content : String) (d : D)
      → read parse opened content ≡ object d
      → parse content ≡ object d
  unfolding read
  read_object done content d e = e
  read_object refused content d e = ground arith

  -- A load of a state file returns an object only where the file's content parses to it, and then
  -- leaves the file; otherwise the content is not lost: it is still in the file, or, where nothing
  -- is returned and the corruption is reported, in the file of the quarantine.
  pub load_json_safe-Keeps :
      (opened moved : Done) (stamp path content : String) (disk : Disk)
      → disk (target path) ≡ some content
      → let out = load_json_safe parse opened moved stamp path disk in
        Keeps path stamp content out.0 out.1
  unfolding load_json_safe load_content
  load_json_safe-Keeps opened moved stamp path content disk e = rw e (
      load-Keeps (read parse opened content) moved stamp path content disk e
        (λ d h. read_object opened content d h))
