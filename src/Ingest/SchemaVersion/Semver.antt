-- ===== src/Ingest/SchemaVersion/Semver.antt =====
-- The texts that the pattern of SchemaVersionChecker matches.
use snts_collectmind.Prelude.{
  ℕ, true, false, Option, none, some, [], ◌∷◌, ◌++◌, Text, is_digit, is_empty, if◌then◌else◌, ◌≡◌,
  refl, sym, ap, ◌∙◌, arith, All, Bool-cases, ◌⊎◌, inl, inr, ◌↔◌,
}
use snts_collectmind.Ingest.SchemaVersion.{
  span_digits, group, dot, at_end, semver, int_from, judge_version, check, ◌>>=◌,
}

abbrev pub Digits : Text → Type 0
Digits d = (is_empty d ≡ false) × All (λ c. is_digit c ≡ true) d

-- The text does not go on with a digit.
abbrev pub Stops : Text → Type 0
Stops [] = Unit
Stops (c ∷ s) = is_digit c ≡ false

-- Nothing, or a newline.
abbrev pub IsTail : Text → Type 0
IsTail t = (t ≡ []) ⊎ (t ≡ (10 ∷ []))

span_digits-append :
    (d s : Text) → All (λ c. is_digit c ≡ true) d → Stops s → span_digits (d ++ s) ≡ (d, s)
unfolding span_digits
span_digits-append [] [] h k = refl
span_digits-append [] (c ∷ s) h k = rw k refl
span_digits-append (c ∷ d) s h k = rw h.0 (ap (λ r. (c ∷ r.0, r.1)) (span_digits-append d s h.1 k))

group-append : (d s : Text) → Digits d → Stops s → group (d ++ s) ≡ some (d, s)
unfolding group
group-append d s h k = rw (span_digits-append d s h.1 k, group) (rw h.0 refl)

-- What a run of digits gives back.
record Spanned (s : Text) (r : Text × Text) : Type 0 where
  whole : s ≡ (r.0 ++ r.1)
  digits : All (λ c. is_digit c ≡ true) r.0

span_digits-Spanned : (s : Text) → Spanned s (span_digits s)
unfolding span_digits
span_digits-Spanned [] = record { whole = refl; digits = tt }
span_digits-Spanned (c ∷ s) =
    let rest = span_digits-Spanned s in
    elim (Bool-cases (is_digit c)) [
      | inl e ↦ rw e (record { whole = ap (λ t. c ∷ t) rest.whole; digits = (e, rest.digits) })
      | inr e ↦ rw e (record { whole = refl; digits = tt })
    ]

record Grouped (s : Text) (r : Text × Text) : Type 0 where
  whole : s ≡ (r.0 ++ r.1)
  digits : Digits r.0

group-Grouped : (s : Text) (r : Text × Text) → group s ≡ some r → Grouped s r
unfolding group
group-Grouped s r h = elim (Bool-cases (is_empty (span_digits s).0)) [
  | inl e ↦ absurd (ground arith)
  | inr e ↦
      let q : span_digits s ≡ r = ground arith in
      rw (sym q) (record {
        whole = (span_digits-Spanned s).whole;
        digits = (e, (span_digits-Spanned s).digits);
      })
]

dot-eq : (s t : Text) → dot s ≡ some t → s ≡ (b'.' ∷ t)
unfolding dot
dot-eq [] t h = absurd (ground arith)
dot-eq (c ∷ s) t h = ground arith

at_end-IsTail : (t : Text) → at_end t ≡ true → IsTail t
unfolding at_end
at_end-IsTail [] h = inl refl
at_end-IsTail (c ∷ []) h = ground arith
at_end-IsTail (c ∷ d ∷ s) h = absurd (ground arith)

-- Three numbers with dots between them.
abbrev pub dotted : Text → Text → Text → Text → Text
dotted a b c t = a ++ (b'.' ∷ (b ++ (b'.' ∷ (c ++ t))))

IsTail-Stops : (t : Text) → IsTail t → (Stops t) × (at_end t ≡ true)
unfolding at_end
IsTail-Stops t (inl e) = rw e (tt, refl)
IsTail-Stops t (inr e) = rw e (refl, refl)

-- The pattern's `$` leaves a newline at the end alone, so three numbers with dots match with it and
-- without it, each group in full.
pub semver-dotted :
    (a b c t : Text)
    → Digits a
    → Digits b
    → Digits c
    → IsTail t
    → semver (dotted a b c t) ≡ some (a, b, c)
unfolding semver dot
semver-dotted a b c t ha hb hc ht =
    let stop = IsTail-Stops t ht in
    rw (group-append a (b'.' ∷ (b ++ (b'.' ∷ (c ++ t)))) ha refl, semver)
      (rw (group-append b (b'.' ∷ (c ++ t)) hb refl, semver)
        (rw (group-append c t hc stop.0, semver) (rw stop.1 refl)))

bind-some :
    {A B : Type 0} (o : Option A) (f : A → Option B) (b : B)
    → (o >>= f) ≡ some b
    → (a : A) × (o ≡ some a) × (f a ≡ some b)
bind-some none f b h = absurd (ground arith)
bind-some (some a) f b h = (a, refl, h)

-- What a match of the pattern says of the text.
pub record IsSemver (s a b c : Text) : Type 0 where
  pub tail : Text
  pub text : s ≡ dotted a b c tail
  pub major : Digits a
  pub minor : Digits b
  pub patch : Digits c
  pub ends : IsTail tail

end_of :
    (p : Text × Text) (a b x y z : Text)
    → ◌≡◌ {A = Option (Text × Text × Text)}
        (if◌then◌else◌ {A = Option (Text × Text × Text)} (at_end p.1) (some (a, b, p.0)) none)
        (some (x, y, z))
    → (at_end p.1 ≡ true) × (a ≡ x) × (b ≡ y) × (p.0 ≡ z)
end_of p a b x y z h = elim (Bool-cases (at_end p.1)) [
  | inl e ↦ (e, ground arith, ground arith, ground arith)
  | inr e ↦ absurd (ground arith)
]

-- A text that the pattern matches is three numbers with dots between them, with a newline at the
-- end at most, and the groups are those numbers.
pub semver-IsSemver : (s a b c : Text) → semver s ≡ some (a, b, c) → IsSemver s a b c
unfolding semver
semver-IsSemver s a b c h =
    let m1 = bind-some (group s) _ (a, b, c) h in
    let m2 = bind-some (dot m1.0.1) _ (a, b, c) m1.2 in
    let m3 = bind-some (group m2.0) _ (a, b, c) m2.2 in
    let m4 = bind-some (dot m3.0.1) _ (a, b, c) m3.2 in
    let m5 = bind-some (group m4.0) _ (a, b, c) m4.2 in
    let e = end_of m5.0 m1.0.0 m3.0.0 a b c m5.2 in
    let g1 = group-Grouped s m1.0 m1.1 in
    let g3 = group-Grouped m2.0 m3.0 m3.1 in
    let g5 = group-Grouped m4.0 m5.0 m5.1 in
    rw (sym e.1, sym e.2, sym e.3)
      (record {
        tail = m5.0.1;
        text =
            g1.whole
            ∙ ap (λ t. m1.0.0 ++ t)
                (dot-eq m1.0.1 m2.0 m2.1
                  ∙ ap (λ t. b'.' ∷ t)
                      (g3.whole
                        ∙ ap (λ t. m3.0.0 ++ t)
                            (dot-eq m3.0.1 m4.0 m4.1 ∙ ap (λ t. b'.' ∷ t) g5.whole)));
        major = g1.digits;
        minor = g3.digits;
        patch = g5.digits;
        ends = at_end-IsTail m5.0.1 e.0;
      })

check-judge :
    (supported : ℕ) (s : Text) → check supported (some s) ≡ judge_version supported (semver s)
unfolding check semver group span_digits
check-judge supported [] = refl
check-judge supported (c ∷ s) = refl

judge-ok :
    (supported : ℕ) (m : Option (Text × Text × Text))
    → (judge_version supported m).ok ≡ true
    → (a : Text) × (b : Text) × (c : Text) × (m ≡ some (a, b, c)) × (int_from 0 a ≡ supported)
unfolding judge_version
judge-ok supported none h = absurd (ground arith)
judge-ok supported (some (a, b, c)) h = (a, b, c, refl, ground arith)

judge-supported :
    (supported : ℕ) (a b c : Text)
    → int_from 0 a ≡ supported
    → (judge_version supported (some (a, b, c))).ok ≡ true
unfolding judge_version
judge-supported supported a b c h = ground arith

-- The version is accepted exactly when it is three numbers with dots between them, with a newline
-- at the end at most, and the first is the supported major version.
pub check_ok_iff :
    (supported : ℕ) (s : Text)
    → ((check supported (some s)).ok ≡ true)
      ↔ ((a : Text) × (b : Text) × (c : Text) × IsSemver s a b c × (int_from 0 a ≡ supported))
check_ok_iff supported s = (
  λ h.
      let m = judge-ok supported (semver s) (ap (λ r. r.ok) (sym (check-judge supported s)) ∙ h) in
      (m.0, m.1, m.2, semver-IsSemver s m.0 m.1 m.2 m.3, m.4),
  λ h.
      let v = h.3 in
      rw (check-judge supported s) (
        rw (v.text ∙ refl) (
          rw (semver-dotted h.0 h.1 h.2 v.tail v.major v.minor v.patch v.ends)
            (judge-supported supported h.0 h.1 h.2 h.4))),
)
