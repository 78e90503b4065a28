-- ===== src/Bridge/PathLaws.antt =====
-- An attachment is written into the workspace, whatever the caller named it.
use mathlib.Core.List.{reverse, reverse-cons, append-nil, append_assoc, reverse-reverse}
use relayent.Base.{
  ℕ, Text, codes, ◌==◌, ◌==ℕ◌, ◌≡◌, refl, sym, ap, ◌∙◌, true, false, List, [], ◌∷◌, ◌++◌, arith,
  if◌then◌else◌, Bool-cases, Option, none, some, inl, inr,
}
use relayent.Strings.{split, join, cut, after_prefix}
use relayent.Strings.Search.{after_prefix-append}
use relayent.Strings.Split.{occurs, NoneHas, split-none, split-append, split-NoneHas, cut-append}
use relayent.Strings.Decimal.{itoa, occurs-itoa, value_after, value_after-itoa}
use relayent.Bridge.Paths.{
  slash, is_here, is_parent, leave, clean_step, clean_elements, abs_path, clean, join_path,
  path_ext, attachment_file, attachment_path,
}

-- An element of a clean absolute path.
abbrev pub IsPlain : Text → Type 0
IsPlain c = (occurs slash c ≡ false) × (is_here c ≡ false) × (is_parent c ≡ false)

abbrev pub ArePlain : List Text → Type 0
ArePlain [] = Unit
ArePlain (c ∷ cs) = IsPlain c × ArePlain cs

leave-ArePlain : (out : List Text) → ArePlain out → ArePlain (leave true out)
unfolding leave
leave-ArePlain [] h = tt
leave-ArePlain (last ∷ out) (p, h) = rw p.2 h

clean_step-ArePlain :
    (out : List Text) (c : Text)
    → occurs slash c ≡ false
    → ArePlain out
    → ArePlain (clean_step true out c)
unfolding clean_step
clean_step-ArePlain out c o h = elim (Bool-cases (is_here c)) [
  | inl y ↦ rw y h
  | inr n ↦ elim (Bool-cases (is_parent c)) [
    | inl y ↦ rw n (rw y (leave-ArePlain out h))
    | inr m ↦ rw n (rw m ((o, n, m), h))
  ]
]

clean_elements-ArePlain :
    (out cs : List Text) → NoneHas slash cs → ArePlain out → ArePlain (clean_elements true out cs)
unfolding clean_elements
clean_elements-ArePlain out [] n h = h
clean_elements-ArePlain out (c ∷ cs) n h =
    clean_elements-ArePlain (clean_step true out c) cs n.1 (clean_step-ArePlain out c n.0 h)

plain_step : (out : List Text) (c : Text) → IsPlain c → clean_step true out c ≡ c ∷ out
unfolding clean_step
plain_step out c p = rw p.1 (rw p.2 refl)

reverse-cons_onto :
    (c : Text) (cs out : List Text) → reverse (c ∷ cs) ++ out ≡ reverse cs ++ c ∷ out
reverse-cons_onto c cs out =
    ap (λ (r : List Text). r ++ out) (reverse-cons c cs) ∙ append_assoc (reverse cs) (c ∷ []) out

-- The elements of a path with one more element after a slash.
elements-snoc :
    (out cs : List Text) (file : Text)
    → ArePlain cs
    → IsPlain file
    → clean_elements true out (split slash (join slash cs ++ slash ∷ file))
      ≡ file ∷ (reverse cs ++ out)
unfolding clean_elements occurs clean_step ◌==◌ join
elements-snoc out [] file h p =
    ap (clean_elements true out)
      (split-append slash [] file refl ∙ ap (◌∷◌ []) (split-none slash file p.0))
    ∙ plain_step out file p
elements-snoc out (c ∷ []) file (q, h) p =
    ap (clean_elements true out)
      (split-append slash c file q.0 ∙ ap (◌∷◌ c) (split-none slash file p.0))
    ∙ ap (λ o. clean_step true o file) (plain_step out c q)
    ∙ plain_step (c ∷ out) file p
elements-snoc out (c ∷ d ∷ cs) file (q, h) p =
    ap (λ s. clean_elements true out (split slash s))
      (append_assoc c (slash ∷ join slash (d ∷ cs)) (slash ∷ file))
    ∙ ap (clean_elements true out) (split-append slash c (join slash (d ∷ cs) ++ slash ∷ file) q.0)
    ∙ ap (λ o. clean_elements true o (split slash (join slash (d ∷ cs) ++ slash ∷ file)))
        (plain_step out c q)
    ∙ elements-snoc (c ∷ out) (d ∷ cs) file h p
    ∙ ap (◌∷◌ file) (sym (reverse-cons_onto c (d ∷ cs) out))

join_path-abs :
    (cs : List Text) (file : Text)
    → ArePlain cs
    → IsPlain file
    → join_path (abs_path cs) file ≡ abs_path (cs ++ file ∷ [])
unfolding join_path clean
join_path-abs cs file h p =
    ap (λ es. abs_path (reverse es)) (elements-snoc [] cs file h p)
    ∙ ap abs_path (
        reverse-cons file (reverse cs ++ [])
        ∙ ap (λ (r : List Text). reverse r ++ file ∷ []) (append-nil (reverse cs))
        ∙ ap (λ (r : List Text). r ++ file ∷ []) (reverse-reverse cs))

ArePlain-snoc : (cs : List Text) (c : Text) → ArePlain cs → IsPlain c → ArePlain (cs ++ c ∷ [])
ArePlain-snoc [] c h p = (p, tt)
ArePlain-snoc (d ∷ cs) c (q, h) p = (q, ArePlain-snoc cs c h p)

ArePlain-reverse : (cs : List Text) → ArePlain cs → ArePlain (reverse cs)
ArePlain-reverse [] h = tt
ArePlain-reverse (c ∷ cs) (p, h) =
    rw (reverse-cons c cs) (ArePlain-snoc (reverse cs) c (ArePlain-reverse cs h) p)

-- Cleaning an absolute path leaves plain elements only.
pub clean-abs_path : (s : Text) → (cs : List Text) × (clean (slash ∷ s) ≡ abs_path cs) × ArePlain cs
unfolding clean
clean-abs_path s =
    let cs = clean_elements true [] (split slash s) in
    (
      reverse cs,
      refl,
      ArePlain-reverse cs (clean_elements-ArePlain [] (split slash s) (split-NoneHas slash s) tt),
    )

occurs-append :
    (c : ℕ) (s t : Text) → occurs c s ≡ false → occurs c t ≡ false → occurs c (s ++ t) ≡ false
unfolding occurs
occurs-append c [] t h k = k
occurs-append c (x ∷ s) t h k = ground (arith, occurs-append c s t)

occurs-path_ext : (name : Text) → occurs slash (path_ext name) ≡ false
unfolding path_ext occurs
occurs-path_ext [] = refl
occurs-path_ext (c ∷ s) = ground (arith, occurs-path_ext s)

attachment_file-IsPlain :
    (job : Text) (i : ℕ) (name : Text)
    → occurs slash job ≡ false
    → IsPlain (attachment_file job i name)
unfolding attachment_file occurs ◌==◌
attachment_file-IsPlain job i name h = (
  occurs-append slash job _ h (
      occurs-append slash (itoa i) (path_ext name) (occurs-itoa slash i (inl (omega arith)))
        (occurs-path_ext name)),
  refl,
  refl,
)

-- In a workspace that is a clean absolute path, as filepath.Abs gives it, an attachment of a job whose
-- id has no slash is a file of the workspace itself: the workspace's elements and one more, which has no
-- slash and is neither empty nor `.` nor `..`, whatever name the caller gave.
pub attachment_path-inside :
    (s job : Text) (i : ℕ) (name : Text)
    → occurs slash job ≡ false
    → (cs : List Text) × (clean (slash ∷ s) ≡ abs_path cs)
      × ArePlain cs
      × IsPlain (attachment_file job i name)
      × (attachment_path (clean (slash ∷ s)) job i name
          ≡ abs_path (cs ++ attachment_file job i name ∷ []))
unfolding attachment_path
attachment_path-inside s job i name h =
    let (cs, e, p) = clean-abs_path s in
    let q = attachment_file-IsPlain job i name h in
    (
      cs,
      e,
      p,
      q,
      ap (λ w. join_path w (attachment_file job i name)) e
          ∙ join_path-abs cs (attachment_file job i name) p q,
    )

-- The text before the first dot
before_dot : Text → Text
before_dot [] = []
before_dot (c ∷ s) = if c ==ℕ b'.' then [] else c ∷ before_dot s

before_dot-append_ext :
    (t name : Text) → occurs b'.' t ≡ false → before_dot (t ++ path_ext name) ≡ t
unfolding before_dot path_ext occurs
before_dot-append_ext [] [] h = refl
before_dot-append_ext [] (c ∷ name) h = ground (arith, before_dot-append_ext [] name h)
before_dot-append_ext (c ∷ t) name h = ground (arith, before_dot-append_ext t name)

-- What a file's name tells of the job and of the attachment's index.
pub read_name : Text → Option (Text × ℕ)
unfolding before_dot
read_name file = elim (after_prefix (codes "attachment-") file) [
  | none ↦ none
  | some rest ↦ elim (cut b'-' rest) [
    | none ↦ none
    | some (job, tail) ↦ some (job, value_after 0 (before_dot tail))
  ]
]

read_name-some :
    (file rest job tail : Text) (i : ℕ)
    → after_prefix (codes "attachment-") file ≡ some rest
    → cut b'-' rest ≡ some (job, tail)
    → value_after 0 (before_dot tail) ≡ i
    → read_name file ≡ some (job, i)
unfolding read_name
read_name-some file rest job tail i e f g = ground arith

-- The name of an attachment's file tells the job, if its id has no dash, and the index: the files of
-- different jobs, and those of one job, do not collide.
pub read_name-attachment_file :
    (job : Text) (i : ℕ) (name : Text)
    → occurs b'-' job ≡ false
    → read_name (attachment_file job i name) ≡ some (job, i)
unfolding attachment_file
read_name-attachment_file job i name h =
    read_name-some _ (job ++ (codes "-" ++ (itoa i ++ path_ext name))) job (itoa i ++ path_ext name)
      i (after_prefix-append (codes "attachment-") _)
      (cut-append b'-' job (itoa i ++ path_ext name) h)
      (ap (value_after 0)
          (before_dot-append_ext (itoa i) name (occurs-itoa b'.' i (inl (omega arith))))
        ∙ value_after-itoa i)
