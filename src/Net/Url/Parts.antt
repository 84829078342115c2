-- ===== src/Net/Url/Parts.antt =====
-- The parts of a URL and what each may hold.
use geodesk_gol.Prelude.{
  ℕ, zero, suc, ◌+◌, Bool, true, false, Option, none, some, [], ◌∷◌, ◌++◌, take, drop, length,
  length-take, ◌≤◌, ◌≡◌, ◌≢◌, refl, sym, ap, subst, ◌∙◌, ◌⊎◌, inl, inr, All, Bool-cases,
  Option-cases, arith, take-append-drop, append-nil, ==→eq,
}
use mathlib.Core.Option.{some-injective}
use native.Mathlib.Numerals.{add-one}
use geodesk_gol.Net.Url.{
  Bytes, codes, View, null_view, literal, prefix, remove_prefix, find_first, find_scheme_end,
  at_scheme_end, ends_host, ends_path, is_hash, is_colon, cut, starts_with, Url, split_scheme,
  split_port, split_path, split_query, split_fragment, parse, origin, offset_by,
}

abbrev Lacks : (ℕ → Bool) → Bytes → Type 0
Lacks p = All (λ c. p c ≡ false)

-- What `find_first` finds: the first place that holds such a character.
abbrev FirstAt : (ℕ → Bool) → Bytes → Option ℕ → Type 0
FirstAt p s none = Lacks p s
FirstAt p s (some n) =
    Lacks p (take n s) × (c : ℕ) × (r : Bytes) × (drop n s ≡ c ∷ r) × (p c ≡ true)

FirstAt-cons :
    (p : ℕ → Bool) (c : ℕ) (s : Bytes) (o : Option ℕ)
    → p c ≡ false
    → FirstAt p s o
    → FirstAt p (c ∷ s) (offset_by 1 o)
FirstAt-cons p c s none h f = (h, f)
FirstAt-cons p c s (some n) h f =
    let (clean, x, r, e, q) = f in rw (add-one n) ((h, clean), x, r, e, q)

find_first-FirstAt : (p : ℕ → Bool) (s : Bytes) → FirstAt p s (find_first p s)
unfolding find_first
find_first-FirstAt p [] = tt
find_first-FirstAt p (c ∷ s) = elim (Bool-cases (p c)) [
  | inl hit ↦ rw hit (tt, c, s, refl, hit)
  | inr miss ↦ rw miss (FirstAt-cons p c s (find_first p s) miss (find_first-FirstAt p s))
]

-- A text is empty, or starts with such a character.
abbrev Begins : (ℕ → Bool) → Bytes → Type 0
Begins p s = (s ≡ []) ⊎ ((c : ℕ) × (r : Bytes) × (s ≡ c ∷ r) × (p c ≡ true))

record IsCut (p : ℕ → Bool) (s head rest : Bytes) : Type 0 where
  joined : head ++ rest ≡ s
  clean : Lacks p head
  begins : Begins p rest

cut-IsCut : (p : ℕ → Bool) (v : View) → IsCut p v.text (cut p v).0.text (cut p v).1.text
cut-IsCut p v = by_place (find_first p v.text) (find_first-FirstAt p v.text)
  where
    by_place :
        (o : Option ℕ)
        → FirstAt p v.text o
        → let c : View × View = elim o [
          | some n ↦ (prefix n v, remove_prefix n v)
          | none ↦ (v, literal "")
        ] in
          IsCut p v.text c.0.text c.1.text
    by_place none f = record { joined = append-nil v.text; clean = f; begins = inl refl }
    by_place (some n) f = record {
      joined = take-append-drop n v.text;
      clean = f.0;
      begins = let (_, c, r, e, q) = f in inr (c, r, e, q);
    }

-- A part of a URL with its delimiter, or nothing.
abbrev pub Delimited : Bytes → Bytes → Bytes → Type 0
Delimited d part whole = ((part ≡ []) × (whole ≡ [])) ⊎ (whole ≡ d ++ part)

record IsPath (s path rest : Bytes) : Type 0 where
  joined : path ++ rest ≡ s
  clean : Lacks ends_path path
  begins : Begins ends_path rest

split_path-IsPath :
    (v : View) → Begins ends_host v.text → IsPath v.text (split_path v).0.text (split_path v).1.text
unfolding split_path
split_path-IsPath v b = elim (Bool-cases (starts_with b'/' v.text)) [
  | inl slash ↦ rw slash (
      let c = cut-IsCut ends_path v in
      record { joined = c.joined; clean = c.clean; begins = c.begins })
  | inr other ↦ rw other (record { joined = refl; clean = tt; begins = ground arith })
]

record IsQuery (s query rest : Bytes) : Type 0 where
  whole : Bytes
  delimited : Delimited (codes "?") query whole
  joined : whole ++ rest ≡ s
  clean : Lacks is_hash query
  begins : Begins is_hash rest

starts_with_lem : (c : ℕ) (s : Bytes) → starts_with c s ≡ true → s ≡ c ∷ drop 1 s
starts_with_lem c [] h = cc
starts_with_lem c (x ∷ s) h = ap (λ (t : ℕ). t ∷ s) (==→eq x c h)

split_query-IsQuery :
    (v : View)
    → Begins ends_path v.text
    → IsQuery v.text (split_query v).0.text (split_query v).1.text
unfolding split_query
split_query-IsQuery v b = elim (Bool-cases (starts_with b'?' v.text)) [
  | inl mark ↦ rw mark (
      let c = cut-IsCut is_hash (remove_prefix 1 v) in
      record {
        whole = b'?' ∷ (cut is_hash (remove_prefix 1 v)).0.text;
        delimited = inr refl;
        joined = ap (λ (t : Bytes). b'?' ∷ t) c.joined ∙ sym (starts_with_lem b'?' v.text mark);
        clean = c.clean;
        begins = c.begins;
      })
  | inr other ↦ rw other (record {
    whole = [];
    delimited = inl (refl, refl);
    joined = refl;
    clean = tt;
    begins = ground arith;
  })
]

split_fragment-Delimited :
    (v : View) → Begins is_hash v.text → Delimited (codes "#") (split_fragment v).text v.text
unfolding split_fragment
split_fragment-Delimited v b = elim (Bool-cases (starts_with b'#' v.text)) [
  | inl mark ↦ rw mark (inr (starts_with_lem b'#' v.text mark))
  | inr other ↦ rw other (inl (refl, ground arith))
]

-- The scheme with the first "://", or, where there is none, the default.
abbrev pub Schemed : Bytes → Bytes → Bytes → Type 0
Schemed url scheme whole =
    (((before rest : Bytes) → url ≢ before ++ (codes "://" ++ rest))
      × (scheme ≡ codes "http")
      × (whole ≡ []))
    ⊎ ((whole ≡ scheme ++ codes "://")
        × ((before rest : Bytes)
            → url ≡ before ++ (codes "://" ++ rest)
            → length scheme ≤ length before))

at_scheme_end_lem : (s : Bytes) → at_scheme_end s ≡ true → s ≡ codes "://" ++ drop 3 s
at_scheme_end_lem (a ∷ b ∷ c ∷ r) h = ground arith
at_scheme_end_lem [] h = cc
at_scheme_end_lem (a ∷ []) h = cc
at_scheme_end_lem (a ∷ b ∷ []) h = cc

find_scheme_end_lem :
    (s : Bytes) (n : ℕ)
    → find_scheme_end s ≡ some n
    → s ≡ (take n s ++ codes "://") ++ drop (n + 3) s
unfolding find_scheme_end
find_scheme_end_lem [] n h = cc
find_scheme_end_lem (c ∷ s) n h = elim (Bool-cases (at_scheme_end (c ∷ s))) [
  | inl here ↦
      let e : 0 ≡ n = some-injective _ _ (rw here at h) in
      subst (λ n. c ∷ s ≡ (take n (c ∷ s) ++ codes "://") ++ drop (n + 3) (c ∷ s)) e
        (at_scheme_end_lem (c ∷ s) here)
  | inr later ↦ elim (Option-cases (find_scheme_end s)) [
    | inl absent ↦ let e : none ≡ some n = rw (later, absent) at h in cc
    | inr (m, found) ↦
        let shift : suc m + 3 ≡ suc (m + 3) = omega arith in
        let e : suc m ≡ n = sym (add-one m) ∙ some-injective _ _ (rw (later, found) at h) in
        subst (λ n. c ∷ s ≡ (take n (c ∷ s) ++ codes "://") ++ drop (n + 3) (c ∷ s)) e
          (rw shift (ap (λ (t : Bytes). c ∷ t) (find_scheme_end_lem s m found)))
  ]
]

clash : {b : Bool} → b ≡ false → b ≡ true → ⊥
clash denied given = cc

-- What `find_scheme_end` finds is before every "://".
find_scheme_end-first :
    (s before rest : Bytes)
    → s ≡ before ++ (codes "://" ++ rest)
    → (n : ℕ) × (find_scheme_end s ≡ some n) × (n ≤ length before)
unfolding find_scheme_end
find_scheme_end-first [] [] rest e = cc
find_scheme_end-first [] (x ∷ before) rest e = cc
find_scheme_end-first (c ∷ s) [] rest e = rw (ap at_scheme_end e) (0, refl, omega arith)
find_scheme_end-first (c ∷ s) (x ∷ before) rest e = elim (Bool-cases (at_scheme_end (c ∷ s))) [
  | inl here ↦ rw here (0, refl, omega arith)
  | inr later ↦
      let (n, found, le) = find_scheme_end-first s before rest (ap (λ (t : Bytes). drop 1 t) e) in
      rw (later, found) (n + 1, refl, omega (arith, le))
]

length-take_le : (n : ℕ) (s : Bytes) → length (take n s) ≤ n
length-take_le n s = omega (arith, length-take n s)

split_scheme-Schemed :
    (url : Bytes)
    → let v : View = record { start = some 0; text = url } in
      (whole : Bytes) × Schemed url (split_scheme v).0.text whole
      × (whole ++ (split_scheme v).1.text ≡ url)
unfolding split_scheme
split_scheme-Schemed url = elim (Option-cases (find_scheme_end url)) [
  | inl absent ↦
      rw (absent, split_scheme)
        (
          [],
          inl (
            (λ before rest e.
                let (n, found, le) = find_scheme_end-first url before rest e in
                let none_found : none ≡ some n = sym absent ∙ found in cc),
            refl,
            refl,
          ),
          refl,
        )
  | inr (n, found) ↦
      rw (found, split_scheme)
        (
          take n url ++ codes "://",
          inr (
            refl,
            λ before rest e.
                let (m, found', le) = find_scheme_end-first url before rest e in
                let same : n ≡ m = some-injective _ _ (sym found ∙ found') in
                omega (arith, length-take_le n url, le, same),
          ),
          sym (find_scheme_end_lem url n found),
        )
]

record IsAuthority (s host port : Bytes) : Type 0 where
  whole : Bytes
  delimited : Delimited (codes ":") port whole
  joined : host ++ whole ≡ s
  clean : Lacks is_colon host

drop_cons : (n : ℕ) (s : Bytes) (c : ℕ) (r : Bytes) → drop n s ≡ c ∷ r → drop (n + 1) s ≡ r
drop_cons zero [] c r h = cc
drop_cons zero (x ∷ s) c r h = cc
drop_cons (suc n) [] c r h = cc
drop_cons (suc n) (x ∷ s) c r h =
    let e : suc n + 1 ≡ suc (n + 1) = omega arith in rw e (drop_cons n s c r h)

split_port-IsAuthority : (v : View) → IsAuthority v.text (split_port v).0.text (split_port v).1.text
unfolding split_port
split_port-IsAuthority v =
    by_place (find_first is_colon v.text) (find_first-FirstAt is_colon v.text)
  where
    by_place :
        (o : Option ℕ)
        → FirstAt is_colon v.text o
        → let c : View × View = elim o [
          | some n ↦ (prefix n v, remove_prefix (n + 1) v)
          | none ↦ (v, null_view)
        ] in
          IsAuthority v.text c.0.text c.1.text
    by_place none f = record {
      whole = [];
      delimited = inl (refl, refl);
      joined = append-nil v.text;
      clean = f;
    }
    by_place (some n) f =
        let (clean, c, r, e, q) = f in
        record {
          whole = b':' ∷ drop (n + 1) v.text;
          delimited = inr refl;
          joined =
              ap (λ (t : Bytes). take n v.text ++ t)
                (rw (drop_cons n v.text c r e)
                  (ap (λ (t : ℕ). t ∷ r) (sym (==→eq c b':' q)) ∙ sym e))
              ∙ take-append-drop n v.text;
          clean = clean;
        }

-- The parts of a URL, each with its delimiter, in order.
pub record IsSplit (url : Bytes) (u : Url) : Type 0 where
  pub scheme_whole : Bytes
  pub port_whole : Bytes
  pub query_whole : Bytes
  pub fragment_whole : Bytes
  pub scheme_delimited : Schemed url u.scheme.text scheme_whole
  pub port_delimited : Delimited (codes ":") u.port_.text port_whole
  pub query_delimited : Delimited (codes "?") u.query.text query_whole
  pub fragment_delimited : Delimited (codes "#") u.fragment.text fragment_whole
  pub joined :
      scheme_whole
        ++ ((u.host.text ++ port_whole) ++ (u.path.text ++ (query_whole ++ fragment_whole)))
      ≡ url
  pub host_clean : All (λ c. is_colon c ≡ false) u.host.text
  pub authority_clean : All (λ c. ends_host c ≡ false) (u.host.text ++ port_whole)
  pub path_clean : All (λ c. ends_path c ≡ false) u.path.text
  pub query_clean : All (λ c. is_hash c ≡ false) u.query.text

-- Parsing loses nothing: scheme, host, port, path, query and fragment, with their delimiters, are
-- the URL; the scheme ends at the first "://", and is "http" where there is none; the host holds no
-- colon, host and port hold none of "/?#", the path no "?" or "#", and
-- the query no "#".
pub parse-IsSplit : (url : Bytes) → IsSplit url (parse url)
unfolding parse
parse-IsSplit url =
    let v : View = record { start = some 0; text = url } in
    let (w, schemed, scheme_joined) = split_scheme-Schemed url in
    let after_scheme = (split_scheme v).1 in
    let authority = cut-IsCut ends_host after_scheme in
    let host_port = (cut ends_host after_scheme).0 in
    let after_host = (cut ends_host after_scheme).1 in
    let port = split_port-IsAuthority host_port in
    let path = split_path-IsPath after_host authority.begins in
    let after_path = (split_path after_host).1 in
    let query = split_query-IsQuery after_path path.begins in
    let after_query = (split_query after_path).1 in
    record {
      scheme_whole = w;
      port_whole = port.whole;
      query_whole = query.whole;
      fragment_whole = after_query.text;
      scheme_delimited = schemed;
      port_delimited = port.delimited;
      query_delimited = query.delimited;
      fragment_delimited = split_fragment-Delimited after_query query.begins;
      joined = rw (query.joined, path.joined, port.joined, authority.joined) scheme_joined;
      host_clean = port.clean;
      authority_clean = rw port.joined authority.clean;
      path_clean = path.clean;
      query_clean = query.clean;
    }

scheme_absent : (url : Bytes) → find_scheme_end url ≡ none → (parse url).scheme ≡ literal "http"
unfolding parse split_scheme
scheme_absent url absent = rw (absent, split_scheme) refl

-- Without "://" the scheme is a literal outside the URL, and `origin` of a URL with a host
-- subtracts pointers into two different arrays.
pub origin_of_default_scheme :
    (url : Bytes)
    → find_scheme_end url ≡ none
    → (parse url).host.text ≢ []
    → origin url (parse url) ≡ none
unfolding origin
origin_of_default_scheme url absent host = rw (scheme_absent url absent) (ground arith)
