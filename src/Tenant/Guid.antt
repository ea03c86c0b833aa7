-- ===== src/Tenant/Guid.antt =====
-- guidRe against a description of the texts that it matches.
use invora_controller.Prelude.{
  ℕ, zero, suc, ◌≡◌, refl, ap, ◌↔◌, ◌⊎◌, inl, inr, Bool, true, false, List, [], ◌∷◌, ◌++◌, codes,
  arith, length, All, Bool-cases, trim_space,
}
use mathlib.Core.List.{append-nil}
use mathlib.Core.Path.{subst, sym}
use invora_controller.Api.{Organization}
use invora_controller.Tenant.{is_hex, hex_run, hyphen, at_end, guid_re, org_acting_id}

-- n hexadecimal digits
abbrev pub HexDigits : ℕ → List ℕ → Type 0
HexDigits n s = (length s ≡ n) × All (λ c. is_hex c ≡ true) s

-- Five groups of 8, 4, 4, 4 and 12 hexadecimal digits, joined by hyphens.
pub record IsGuid (s : List ℕ) : Type 0 where
  pub a : List ℕ
  pub b : List ℕ
  pub c : List ℕ
  pub d : List ℕ
  pub e : List ℕ
  pub a_digits : HexDigits 8 a
  pub b_digits : HexDigits 4 b
  pub c_digits : HexDigits 4 c
  pub d_digits : HexDigits 4 d
  pub e_digits : HexDigits 12 e
  pub joined : s ≡ a ++ (b'-' ∷ (b ++ (b'-' ∷ (c ++ (b'-' ∷ (d ++ (b'-' ∷ e)))))))

hex_run-split :
    (n : ℕ) (k : List ℕ → Bool) (s : List ℕ)
    → hex_run n k s ≡ true
    → (h : List ℕ) × (t : List ℕ) × HexDigits n h × (s ≡ h ++ t) × (k t ≡ true)
unfolding hex_run
hex_run-split zero k s m = ([], s, (refl, tt), refl, m)
hex_run-split (suc n) k [] m = absurd (ground arith)
hex_run-split (suc n) k (c ∷ s) m =
    let (h, t, digits, cut, rest) = hex_run-split n k s (ground arith) in
    (c ∷ h, t, (ground (arith, digits), (ground arith, digits.1)), ap (λ r. c ∷ r) cut, rest)

hex_run-join :
    (n : ℕ) (k : List ℕ → Bool) (h t : List ℕ)
    → HexDigits n h
    → k t ≡ true
    → hex_run n k (h ++ t) ≡ true
unfolding hex_run
hex_run-join zero k [] t digits m = m
hex_run-join zero k (c ∷ h) t digits m = absurd (omega arith)
hex_run-join (suc n) k [] t digits m = absurd (omega arith)
hex_run-join (suc n) k (c ∷ h) t (len, (hex, rest)) m =
    ground (arith, hex_run-join n k h t (omega arith, rest) m)

hyphen-split :
    (k : List ℕ → Bool) (s : List ℕ)
    → hyphen k s ≡ true
    → (t : List ℕ) × (s ≡ b'-' ∷ t) × (k t ≡ true)
unfolding hyphen
hyphen-split k [] m = absurd (ground arith)
hyphen-split k (c ∷ s) m = (s, ground arith, ground arith)

at_end-nil : (s : List ℕ) → at_end s ≡ true → s ≡ []
unfolding at_end
at_end-nil [] m = refl
at_end-nil (c ∷ s) m = cc

hyphen-join : (k : List ℕ → Bool) (t : List ℕ) → k t ≡ true → hyphen k (b'-' ∷ t) ≡ true
unfolding hyphen
hyphen-join k t m = m

at_end_refl : at_end [] ≡ true
unfolding at_end
at_end_refl = refl

guid_re-IsGuid : (s : List ℕ) → guid_re s ≡ true → IsGuid s
unfolding guid_re
guid_re-IsGuid s m =
    let (a, s1, da, ja, m1) = hex_run-split 8 _ s m in
    let (t1, h1, n1) = hyphen-split _ s1 m1 in
    let (b, s2, db, jb, m2) = hex_run-split 4 _ t1 n1 in
    let (t2, h2, n2) = hyphen-split _ s2 m2 in
    let (c, s3, dc, jc, m3) = hex_run-split 4 _ t2 n2 in
    let (t3, h3, n3) = hyphen-split _ s3 m3 in
    let (d, s4, dd, jd, m4) = hex_run-split 4 _ t3 n3 in
    let (t4, h4, n4) = hyphen-split _ s4 m4 in
    let (e, s5, de, je, m5) = hex_run-split 12 _ t4 n4 in
    record {
      a = a;
      b = b;
      c = c;
      d = d;
      e = e;
      a_digits = da;
      b_digits = db;
      c_digits = dc;
      d_digits = dd;
      e_digits = de;
      joined = cc (ja, h1, jb, h2, jc, h3, jd, h4, je, at_end-nil s5 m5, append-nil e);
    }

IsGuid-guid_re : (s : List ℕ) → IsGuid s → guid_re s ≡ true
unfolding guid_re
IsGuid-guid_re s g = rw g.joined (
    hex_run-join 8 _ g.a _ g.a_digits (
      hyphen-join _ _ (
        hex_run-join 4 _ g.b _ g.b_digits (
          hyphen-join _ _ (
            hex_run-join 4 _ g.c _ g.c_digits (
              hyphen-join _ _ (
                hex_run-join 4 _ g.d _ g.d_digits (
                  hyphen-join _ _ (
                    rw (← append-nil g.e)
                      (hex_run-join 12 at_end g.e [] g.e_digits at_end_refl))))))))))

-- guidRe matches a text exactly when it is five groups of 8, 4, 4, 4 and 12 hexadecimal digits, of
-- either case, joined by hyphens.
pub guid_re_iff : (s : List ℕ) → (guid_re s ≡ true) ↔ IsGuid s
guid_re_iff s = (guid_re-IsGuid s, IsGuid-guid_re s)

org_acting_id_of_guid :
    (org : Organization)
    → guid_re (codes (trim_space org.spec.external_id)) ≡ true
    → org_acting_id org ≡ trim_space org.spec.external_id
unfolding org_acting_id
org_acting_id_of_guid org h = ground arith

org_acting_id_of_other :
    (org : Organization)
    → guid_re (codes (trim_space org.spec.external_id)) ≡ false
    → org_acting_id org ≡ ""
unfolding org_acting_id
org_acting_id_of_other org h = ground arith

-- The org that a child resource acts as is none, or a GUID: the externalId of the organization
-- without the white space around it.
pub org_acting_id-IsGuid :
    (org : Organization)
    → (org_acting_id org ≡ "")
      ⊎ (IsGuid (codes (org_acting_id org)) × (org_acting_id org ≡ trim_space org.spec.external_id))
org_acting_id-IsGuid org = elim (Bool-cases (guid_re (codes (trim_space org.spec.external_id)))) [
  | inl guid ↦
      let e = org_acting_id_of_guid org guid in
      inr (subst (λ id. IsGuid (codes id)) (sym e) (guid_re-IsGuid _ guid), e)
  | inr other ↦ inl (org_acting_id_of_other org other)
]
