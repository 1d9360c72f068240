-- ===== src/Params/RoundTrip.antt =====
-- What is written as key=value pairs is read back.
use Prim.Native.Char.{Char}
use Prim.Native.String.{◌++◌ as ◌+++◌}
use text.Mathlib.TextLemmas.{nil-append, cons-append, cons-ne-nil}
use mathlib.Core.List.{append-nil, append_assoc as list_assoc}
use test_frerfhrebfd.Common.{
  String, Bool, true, false, some, List, [], ◌∷◌, ◌++◌, str_eq, eq_iff, insert, join, keep, All,
  All-append, is_char, is_space, starts_with, text_before, text_after, ◌≡◌, refl, sym, ap, ◌∙◌,
  arith, Bool-cases, inl, inr,
}
use test_frerfhrebfd.Params.Parse.{
  Params, pieces, is_word, words, set_option, read_options, read_params,
}

-- No character of the text passes the test.
abbrev pub FreeOf : (Char → Bool) → String → Type 0
FreeOf p String.[] = Unit
FreeOf p (String.◌∷◌ c s) = (p c ≡ false) × FreeOf p s

abbrev pub is_equals : Char → Bool
is_equals c = is_char "=" c

-- A key has no '=' and no white space in it, and a value has no white space.
abbrev pub IsOption : String × String → Type 0
IsOption (k, v) = FreeOf is_equals k × FreeOf is_space k × FreeOf is_space v

-- No key stands twice.
abbrev pub HaveOwnKeys : Params → Type 0
HaveOwnKeys [] = Unit
HaveOwnKeys ((k, v) ∷ params) = All (λ p. str_eq k p.0 ≡ false) params × HaveOwnKeys params

abbrev pub show_option : String × String → String
show_option (k, v) = k +++ ("=" +++ v)

abbrev pub show_options : Params → List String
show_options [] = []
show_options (p ∷ params) = show_option p ∷ show_options params

-- The pairs with blanks between them, as they stand on a command line.
abbrev pub show_params : Params → String
show_params params = join " " (show_options params)

single : (c : Char) (s : String) → String.◌∷◌ c "" +++ s ≡ String.◌∷◌ c s
single c s = cons-append c "" s ∙ ap (String.◌∷◌ c) (nil-append s)

FreeOf-append : (p : Char → Bool) (s t : String) → FreeOf p s → FreeOf p t → FreeOf p (s +++ t)
FreeOf-append p String.[] t h k = rw (nil-append t) k
FreeOf-append p (String.◌∷◌ c s) t h k = rw (cons-append c s t) (h.0, FreeOf-append p s t h.1 k)

pieces-word : (s : String) → FreeOf is_space s → pieces s ≡ s ∷ []
unfolding pieces
pieces-word String.[] h = refl
pieces-word (String.◌∷◌ c s) h = rw (h.0, pieces-word s h.1) refl

pieces-blank : (s t : String) → FreeOf is_space s → pieces (s +++ (" " +++ t)) ≡ s ∷ pieces t
unfolding pieces
pieces-blank String.[] t h = rw (nil-append (" " +++ t), single _ t) refl
pieces-blank (String.◌∷◌ c s) t h =
    rw (cons-append c s (" " +++ t)) (rw (h.0, pieces-blank s t h.1) refl)

flip_false : (s t : String) → str_eq s t ≡ false → str_eq t s ≡ false
flip_false s t h = ground (arith, eq_iff s t, eq_iff t s)

before_equals : (k v : String) → FreeOf is_equals k → text_before "=" (k +++ ("=" +++ v)) ≡ k
unfolding text_before starts_with
before_equals String.[] v h = rw (nil-append ("=" +++ v), single _ v) refl
before_equals (String.◌∷◌ c k) v h =
    rw (cons-append c k ("=" +++ v))
      (rw (flip_false (String.◌∷◌ c "") "=" h.0, before_equals k v h.1) refl)

after_equals : (k v : String) → FreeOf is_equals k → text_after "=" (k +++ ("=" +++ v)) ≡ some v
unfolding text_after
after_equals String.[] v h = rw (nil-append ("=" +++ v), single _ v) refl
after_equals (String.◌∷◌ c k) v h =
    rw (cons-append c k ("=" +++ v))
      (rw (flip_false (String.◌∷◌ c "") "=" h.0, after_equals k v h.1) refl)

cons_IsWord : (c : Char) (s : String) → is_word (String.◌∷◌ c s) ≡ true
cons_IsWord c s = elim (Bool-cases (str_eq (String.◌∷◌ c s) "")) [
  | inl e ↦ absurd (cons-ne-nil c s ((eq_iff (String.◌∷◌ c s) "").0 e))
  | inr e ↦ rw e refl
]

show_option-IsWord : (p : String × String) → is_word (show_option p) ≡ true
show_option-IsWord (String.[], v) = rw (nil-append ("=" +++ v), single _ v) (cons_IsWord _ v)
show_option-IsWord (String.◌∷◌ c k, v) =
    rw (cons-append c k ("=" +++ v)) (cons_IsWord c (k +++ ("=" +++ v)))

show_option-FreeOf : (p : String × String) → IsOption p → FreeOf is_space (show_option p)
show_option-FreeOf (k, v) h = FreeOf-append is_space k ("=" +++ v) h.1 (rw (single _ v) (refl, h.2))

keep_word :
    (w : String) (ws : List String) → is_word w ≡ true → keep is_word (w ∷ ws) ≡ w ∷ keep is_word ws
keep_word w ws h = rw h refl

words-show_params :
    (params : Params) → All IsOption params → words (show_params params) ≡ show_options params
unfolding words join
words-show_params [] h = refl
words-show_params (p ∷ []) h =
    ap (keep is_word) (pieces-word (show_option p) (show_option-FreeOf p h.0))
    ∙ keep_word (show_option p) [] (show_option-IsWord p)
words-show_params (p ∷ q ∷ params) h =
    ap (keep is_word)
      (pieces-blank (show_option p) (show_params (q ∷ params)) (show_option-FreeOf p h.0))
    ∙ keep_word (show_option p) (pieces (show_params (q ∷ params))) (show_option-IsWord p)
    ∙ ap (λ ws. show_option p ∷ ws) (words-show_params (q ∷ params) h.1)

insert_new :
    (k v : String) (params : Params)
    → All (λ p. str_eq p.0 k ≡ false) params
    → insert k v params ≡ params ++ (k, v) ∷ []
insert_new k v [] h = refl
insert_new k v (p ∷ params) h = rw h.0 (ap (λ l. p ∷ l) (insert_new k v params h.1))

set_option-show_option :
    (k v : String) (params : Params)
    → FreeOf is_equals k
    → set_option (show_option (k, v)) (text_after "=" (show_option (k, v))) params
      ≡ insert k v params
unfolding set_option
set_option-show_option k v params h =
    ap (λ o. set_option (show_option (k, v)) o params) (after_equals k v h)
    ∙ ap (λ key. insert key v params) (before_equals k v h)

-- The keys of the pairs that are there are none of the keys to come.
abbrev Apart : Params → Params → Type 0
Apart params more = All (λ q. All (λ p. str_eq p.0 q.0 ≡ false) params) more

Apart-snoc :
    (params more : Params) (p : String × String)
    → All (λ q. str_eq p.0 q.0 ≡ false) more
    → Apart params more
    → Apart (params ++ p ∷ []) more
Apart-snoc params [] p h k = tt
Apart-snoc params (q ∷ more) p h k = (
  All-append (λ r. str_eq r.0 q.0 ≡ false) params (p ∷ []) k.0 (h.0, tt),
  Apart-snoc params more p h.1 k.1,
)

read_options-show_options :
    (params more : Params)
    → All IsOption more
    → HaveOwnKeys more
    → Apart params more
    → read_options (show_options more) params ≡ params ++ more
unfolding read_options
read_options-show_options params [] h own apart = sym (append-nil params)
read_options-show_options params ((k, v) ∷ more) h own apart =
    ap (read_options (show_options more)) (set_option-show_option k v params h.0.0)
    ∙ ap (read_options (show_options more)) (insert_new k v params apart.0)
    ∙ read_options-show_options (params ++ (k, v) ∷ []) more h.1 own.1
        (Apart-snoc params more (k, v) own.0 apart.1)
    ∙ list_assoc params ((k, v) ∷ []) more

-- Parameters that are written as key=value pairs with blanks between them are read back as they
-- were, in their order, if no key stands twice, no key has '=' or white space in it, and no value
-- has white space.
pub read_params-show_params :
    (params : Params)
    → All IsOption params
    → HaveOwnKeys params
    → read_params (show_params params) ≡ params
unfolding read_params
read_params-show_params params h own =
    ap (λ ws. read_options ws []) (words-show_params params h)
    ∙ read_options-show_options [] params h own (apart_nil params)
  where
    apart_nil : (more : Params) → Apart [] more
    apart_nil [] = tt
    apart_nil (q ∷ more) = (tt, apart_nil more)
