-- ===== src/Tls/Config/Read.antt =====
-- What is read of a PEM file.
use salus_rs.Prelude.{
  ◌≡◌, refl, sym, ap, ◌∙◌, ◌↔◌, Bool, true, false, not, List, [], ◌∷◌, ◌++◌, append-nil,
  append_assoc, arith, map, All, is_nil, String, Text, Bytes, OsStr, Result, ok, err, ok-injective,
  >>=-eq-ok, map_err, map_err-ok, refuse_if, subst,
}
use salus_rs.Tls.Config.{PemFile, TlsLibrary, collect, open_regular_pem_file, read_certs, add_roots}

collect-ok :
    (rs : List (Result Text Bytes)) {certs : List Bytes} → collect rs ≡ ok certs → rs ≡ map ok certs
unfolding collect
collect-ok [] h = ap (map ok) (ok-injective h)
collect-ok (err e ∷ rs) h = absurd (ground arith)
collect-ok (ok cert ∷ rs) h =
    let (certs, rest, h1) = >>=-eq-ok (collect rs) _ h in
    ap (λ x. ok cert ∷ x) (collect-ok rs rest) ∙ ap (map ok) (ok-injective h1)

collect-map : (certs : List Bytes) → collect (map ok certs) ≡ ok certs
unfolding collect
collect-map [] = refl
collect-map (cert ∷ certs) = rw (collect-map certs) refl

module _ (lib : TlsLibrary) (webpki : Bool) where
  -- The path names a regular file that can be opened.
  pub record Opens (file : OsStr) (pem : PemFile) : Type 0 where
    pub regular : lib.is_file file ≡ ok true
    pub opens : lib.open_pem file ≡ ok pem

  -- All certificates of the file are read, and there are some.
  pub record Brings (pem : PemFile) (certs : List Bytes) : Type 0 where
    pub read : pem.certs ≡ map ok certs
    pub some_read : is_nil certs ≡ false

  pub open_iff :
      (file : OsStr) (label : String) (pem : PemFile)
      → (open_regular_pem_file lib webpki file label ≡ ok pem) ↔ Opens file pem
  unfolding open_regular_pem_file
  open_iff file label pem = (
    λ h.
        let (regular, inspected, h1) = >>=-eq-ok (map_err _ (lib.is_file file)) _ h in
        let (_, checked, h2) = >>=-eq-ok (refuse_if (not regular) _) _ h1 in
        let is_regular : regular ≡ true = ground (arith, checked) in
        record {
          regular = map_err-ok _ (lib.is_file file) inspected ∙ ap ok is_regular;
          opens = map_err-ok _ (lib.open_pem file) h2;
        },
    λ o. rw (o.regular, o.opens, open_regular_pem_file) refl,
  )

  pub certs_iff :
      (file : OsStr) (label : String) (pem : PemFile) (certs : List Bytes)
      → (read_certs lib webpki file label pem ≡ ok certs) ↔ Brings pem certs
  unfolding read_certs
  certs_iff file label pem certs = (
    λ h.
        let (found, parsed, h1) = >>=-eq-ok (map_err _ (collect pem.certs)) _ h in
        let (_, checked, h2) = >>=-eq-ok (refuse_if (is_nil found) _) _ h1 in
        let same : found ≡ certs = ok-injective h2 in
        record {
          read = collect-ok pem.certs (map_err-ok _ (collect pem.certs) parsed ∙ ap ok same);
          some_read = subst (λ x. is_nil x ≡ false) same (ground (arith, checked));
        },
    λ b.
        let collected : collect pem.certs ≡ ok certs = ap collect b.read ∙ collect-map certs in
        rw (collected, b.some_read, read_certs) refl,
  )

  -- The store takes all of them, behind those that it has.
  pub add_roots_iff :
      (file : OsStr) (certs roots r : List Bytes)
      → (add_roots lib webpki file certs roots ≡ ok r)
        ↔ (All (λ cert. lib.add_root cert ≡ ok tt) certs × (r ≡ roots ++ certs))
  unfolding add_roots
  add_roots_iff file [] roots r = (
    λ h. (tt, sym (ok-injective h) ∙ sym (append-nil roots)),
    λ h. ap ok (sym (h.1 ∙ append-nil roots)),
  )
  add_roots_iff file (cert ∷ certs) roots r = (
    λ h.
        let (_, taken, h1) = >>=-eq-ok (map_err _ (lib.add_root cert)) _ h in
        let (all_taken, e) = (add_roots_iff file certs (roots ++ (cert ∷ [])) r).0 h1 in
        (
          (map_err-ok _ (lib.add_root cert) taken, all_taken),
          e ∙ append_assoc roots (cert ∷ []) certs,
        ),
    λ h.
        rw (h.0.0, add_roots)
          ((add_roots_iff file certs (roots ++ (cert ∷ [])) r).1
            (h.0.1, h.1 ∙ sym (append_assoc roots (cert ∷ []) certs))),
  )
