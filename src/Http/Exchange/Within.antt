-- ===== src/Http/Exchange/Within.antt =====
-- crates/plugins/http/src/php/sendfile.rs: a file that PHP may send is a regular file under the root, and the slice lies
-- within it.
use rapira_windows.Common.{
  ℕ, ◌+◌, ◌-◌, ◌%◌, ◌≤◌, ◌<◌, ◌≡◌, refl, sym, ◌∙◌, ap, true, not, if_split, not-false, Option, none,
  some, List, ltb, arith,
}
use rapira_windows.Pool.Scoreboard.{u64}
use rapira_windows.Http.Reply.{File}
use rapira_windows.Http.Exchange.Head.{Checked, passed, failed}
use rapira_windows.Http.Exchange.Trim.{from_utf8}
use rapira_windows.Http.Exchange.Files.{
  Metadata, FileSystem, FileSlice, readable, slice_len, slice_of, slice_in, and_path, in_cwd,
  open_send_file,
}

readable_inv :
    {A B : Type 0} (o : Option A) (f : A → Checked B) (b : B)
    → readable o f ≡ passed b
    → (a : A) × (o ≡ some a) × (f a ≡ passed b)
readable_inv none f b h = absurd (cc)
readable_inv (some a) f b h = (a, refl, h)

slice_of-inv :
    (h : File) (r : Checked ℕ) (s : FileSlice)
    → slice_of h r ≡ passed s
    → (s.handle ≡ h) × (r ≡ passed s.len)
slice_of-inv h (failed msg) s e = absurd (cc)
slice_of-inv h (passed len) s e = (ap (handle_of h) (sym e), ap (λ r. passed (len_of len r)) e)
  where
    handle_of : File → Checked FileSlice → File
    handle_of h (failed msg) = h
    handle_of h (passed s) = s.handle

    len_of : ℕ → Checked FileSlice → ℕ
    len_of n (failed msg) = n
    len_of n (passed s) = s.len

-- The bytes that a call names are 64-bit positions.
abbrev pub IsNamed : ℕ → Option ℕ → Type 0
IsNamed offset none = Unit
IsNamed offset (some l) = offset + l < u64

passed_is : (a b : ℕ) → passed a ≡ passed b → a ≡ b
passed_is a b e = ap (or_zero a) e
  where
    or_zero : ℕ → Checked ℕ → ℕ
    or_zero a (failed msg) = a
    or_zero a (passed n) = n

slice_len_fits :
    (size offset len : ℕ) (length : Option ℕ)
    → IsNamed offset length
    → offset ≤ size
    → slice_len size offset length ≡ passed len
    → offset + len ≤ size
slice_len_fits size offset len none named le e =
    let h = passed_is (size - offset) len e in omega arith
slice_len_fits size offset len (some l) named le e =
    if_split (λ r. r ≡ passed len → offset + len ≤ size) (ltb size ((offset + l) % u64))
      (λ over h. absurd (cc))
      (λ under h.
        let same = passed_is l len h in
        let sum : (offset + l) % u64 ≡ offset + l = omega arith in ground arith)
      e

slice_in_fits :
    (meta : Metadata) (offset len : ℕ) (length : Option ℕ)
    → IsNamed offset length
    → slice_in meta offset length ≡ passed len
    → (meta.is_file ≡ true) × (offset + len ≤ meta.len)
slice_in_fits meta offset len length named =
    if_split (λ r. r ≡ passed len → (meta.is_file ≡ true) × (offset + len ≤ meta.len))
      (not meta.is_file) (λ odd h. absurd (cc))
      (λ regular.
        if_split (λ r. r ≡ passed len → (meta.is_file ≡ true) × (offset + len ≤ meta.len))
          (ltb meta.len offset) (λ over h. absurd (cc))
          (λ in_bounds h. (
            not-false meta.is_file regular,
            slice_len_fits meta.len offset len length named (ground arith) h,
          )))

module _ (fs : FileSystem) (root : FileSystem.PathBuf fs) where
  open fs use {PathBuf, canonicalize, starts_with, open_path, metadata}

  -- A file at a resolved path under the root, that holds the slice.
  pub record IsSendable (offset : ℕ) (s : FileSlice) : Type 0 where
    pub asked : PathBuf
    pub canonical : PathBuf
    pub resolved : canonicalize asked ≡ some canonical
    pub under_root : starts_with canonical root ≡ true
    pub opened : open_path canonical ≡ some s.handle
    pub meta : Metadata
    pub described : metadata s.handle ≡ some meta
    pub regular : meta.is_file ≡ true
    pub within : offset + s.len ≤ meta.len

  and_path_inv :
      {B : Type 0} (r : Checked PathBuf) (f : PathBuf → Checked B) (b : B)
      → and_path fs r f ≡ passed b
      → (p : PathBuf) × (f p ≡ passed b)
  and_path_inv (failed msg) f b h = absurd (cc)
  and_path_inv (passed p) f b h = (p, h)

  -- A file that open_send_file opens for a slice with 64-bit positions is a regular one, at a
  -- resolved path under the root, and the slice ends within its length.
  pub open_send_file-IsSendable :
      (path : List ℕ) (offset : ℕ) (length : Option ℕ) (s : FileSlice)
      → IsNamed offset length
      → open_send_file fs root path offset length ≡ passed s
      → IsSendable offset s
  unfolding open_send_file
  open_send_file-IsSendable path offset length s named h =
      let text = readable_inv (from_utf8 path) _ s h in
      let p = and_path_inv (in_cwd fs (fs.new text.0)) _ s text.2 in
      let c = readable_inv (canonicalize p.0) _ s p.1 in
      if_split (λ r. r ≡ passed s → IsSendable offset s) (not (starts_with c.0 root))
        (λ outside e. absurd (cc))
        (λ inside e.
          let f = readable_inv (open_path c.0) _ s e in
          let m = readable_inv (metadata f.0) _ s f.2 in
          let sl = slice_of-inv f.0 _ s m.2 in
          let fit = slice_in_fits m.0 offset s.len length named sl.1 in
          record {
            asked = p.0;
            canonical = c.0;
            resolved = c.1;
            under_root = not-false (starts_with c.0 root) inside;
            opened = f.1 ∙ ap some (sym sl.0);
            meta = m.0;
            described = ap metadata sl.0 ∙ m.1;
            regular = fit.0;
            within = fit.1;
          })
        c.2
