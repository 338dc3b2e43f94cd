-- ===== src/Alloc/Watches/Keys.antt =====
-- A reference that is joined with slashes is read from its key in one way.
use Prim.Native.Char.{Char, char, code}
use Prim.Native.String.{String, ◌++◌ as str_append}
use Prim.Native.String.append
use juneau.Prelude.{Bool, true, false, ◌||◌, ◌==◌, ◌≡◌, refl, sym, ap, ◌∙◌, arith}
use juneau.Alloc.{RetainReference}
use juneau.Alloc.Watches.{join_slash, retain_reference_key}

unfoldable pub has_slash : String → Bool
has_slash String.[] = false
has_slash (String.◌∷◌ c s) = code c == 47 || has_slash s

slash_in_join :
    (c : Char) (x t : String) → code c ≡ 47 → has_slash (str_append x (String.◌∷◌ c t)) ≡ true
unfolding has_slash
slash_in_join c String.[] t e = rw (append.nil (String.◌∷◌ c t)) (ground arith)
slash_in_join c (String.◌∷◌ d x) t e =
    rw (append.cons d x (String.◌∷◌ c t)) (ground (arith, slash_in_join c x t e))

-- The last slash of a text parts it.
parted :
    (c : Char) (x y s t : String)
    → code c ≡ 47
    → has_slash s ≡ false
    → has_slash t ≡ false
    → str_append x (String.◌∷◌ c s) ≡ str_append y (String.◌∷◌ c t)
    → (x ≡ y) × (s ≡ t)
unfolding has_slash
parted c String.[] String.[] s t e h k p =
    let q : String.◌∷◌ c s ≡ String.◌∷◌ c t =
      sym (append.nil (String.◌∷◌ c s)) ∙ p ∙ append.nil (String.◌∷◌ c t) in
    (refl, cc q)
parted c String.[] (String.◌∷◌ d y) s t e h k p =
    let q : String.◌∷◌ c s ≡ String.◌∷◌ d (str_append y (String.◌∷◌ c t)) =
      sym (append.nil (String.◌∷◌ c s)) ∙ p ∙ append.cons d y (String.◌∷◌ c t) in
    let r : s ≡ str_append y (String.◌∷◌ c t) = cc q in
    absurd (cc (h, ap has_slash r, slash_in_join c y t e))
parted c (String.◌∷◌ b x) String.[] s t e h k p =
    let q : String.◌∷◌ b (str_append x (String.◌∷◌ c s)) ≡ String.◌∷◌ c t =
      sym (append.cons b x (String.◌∷◌ c s)) ∙ p ∙ append.nil (String.◌∷◌ c t) in
    let r : str_append x (String.◌∷◌ c s) ≡ t = cc q in
    absurd (cc (k, ap has_slash r, slash_in_join c x s e))
parted c (String.◌∷◌ b x) (String.◌∷◌ d y) s t e h k p =
    let q : String.◌∷◌ b (str_append x (String.◌∷◌ c s))
        ≡ String.◌∷◌ d (str_append y (String.◌∷◌ c t)) =
      sym (append.cons b x (String.◌∷◌ c s)) ∙ p ∙ append.cons d y (String.◌∷◌ c t) in
    let heads : b ≡ d = cc q in
    let rest = parted c x y s t e h k (cc q) in (cc (heads, rest.0), rest.1)

abbrev slash : Char
slash = char 47 tt

slash_first : (s : String) → str_append "/" s ≡ String.◌∷◌ slash s
slash_first s =
    append.cons slash String.[] s ∙ ap (λ (u : String). String.◌∷◌ slash u) (append.nil s)

join_slash-injective :
    (x y s t : String)
    → has_slash s ≡ false
    → has_slash t ≡ false
    → join_slash x s ≡ join_slash y t
    → (x ≡ y) × (s ≡ t)
unfolding join_slash
join_slash-injective x y s t h k p =
    parted slash x y s t refl h k
      (sym (ap (str_append x) (slash_first s)) ∙ p ∙ ap (str_append y) (slash_first t))

-- A kind, a namespace and a name have no slash.
pub record SlashFree (ref : RetainReference) : Type 0 where
  pub kind : has_slash ref.kind ≡ false
  pub namespace : has_slash ref.namespace ≡ false
  pub name : has_slash ref.name ≡ false

-- Two references with one key are one reference.
pub retain_reference_key-injective :
    (r q : RetainReference)
    → SlashFree r
    → SlashFree q
    → retain_reference_key r ≡ retain_reference_key q
    → r ≡ q
unfolding retain_reference_key
retain_reference_key-injective r q f g p =
    let (a, name) = join_slash-injective _ _ r.name q.name f.name g.name p in
    let (b, namespace) =
      join_slash-injective _ _ r.namespace q.namespace f.namespace g.namespace a in
    let (version, kind) =
      join_slash-injective r.api_version q.api_version r.kind q.kind f.kind g.kind b in
    cc (version, kind, namespace, name)
