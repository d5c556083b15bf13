-- ===== src/System/Registry/Content.antt =====
-- What the registry manager reads of a registry with a known content.
use dns_wrapper.Common.{
  ℕ, suc, ◌+◌, ◌%◌, ◌^◌, ◌<◌, ◌≡◌, refl, ap, ◌∙◌, subst, Bool, true, false, if◌then◌else◌, ◌!=◌,
  List, [], ◌∷◌, ◌++◌, length, length-append, get_elem?, some, arith,
}
use dns_wrapper.Text.{Text}
use dns_wrapper.System.Registry.{
  Api, Read, value, registry_error, error_unsupported_type, read_then, error_success,
  error_file_not_found, or_throw, resize, collect, reg_sub_key, reg_value_type,
  reg_enumerate_sub_keys, reg_enumerate_values, reg_get_string, reg_get_dword, get_string_value,
  get_long_value, get_bool_value, base_key,
}

-- A value of the registry has one type: a text, a DWORD, or another.
pub data Content : Type 0 where
  missing : Content
  text : Text → Content
  dword : ℕ → Content
  other : Content

-- What the system answers about a value: a call that asks for another type fails with a code of its
-- own. Of a text it tells the length with a NUL, and with a buffer of this length its characters
-- and the NUL.
abbrev pub Answers : Api → ℕ → Text → Text → Content → Type 0
Answers api key sub_key name missing =
    ((api.string_size key sub_key name).0 ≡ error_file_not_found)
    × ((api.get_dword key sub_key name).0 ≡ error_file_not_found)
Answers api key sub_key name (text t) =
    ((api.get_dword key sub_key name).0 ≡ error_unsupported_type)
    × (length t + 1 < 2 ^ 32)
    × (api.string_size key sub_key name ≡ (error_success, length t + 1))
    × (api.string_data key sub_key name (length t + 1) ≡ (error_success, t ++ 0 ∷ [], length t + 1))
Answers api key sub_key name (dword w) =
    ((api.string_size key sub_key name).0 ≡ error_unsupported_type)
    × (api.get_dword key sub_key name ≡ (error_success, w))
Answers api key sub_key name other =
    ((api.string_size key sub_key name).0 ≡ error_unsupported_type)
    × ((api.get_dword key sub_key name).0 ≡ error_unsupported_type)

-- What a getter makes of a value, if it knows what to make of one of the type that it asks for.
abbrev pub text_of : Content → Text → Read Text
text_of missing default = value default
text_of (text t) default = value t
text_of (dword w) default = registry_error error_unsupported_type
text_of other default = registry_error error_unsupported_type

abbrev pub word_of : {A : Type 0} → (ℕ → A) → Content → A → Read A
word_of f missing default = value default
word_of f (text t) default = registry_error error_unsupported_type
word_of f (dword w) default = value (f w)
word_of f other default = registry_error error_unsupported_type

resize-append : (t rest : Text) → resize (length t) (t ++ rest) ≡ t
unfolding resize
resize-append [] rest = refl
resize-append (c ∷ t) rest = ap (λ u. c ∷ u) (resize-append t rest)

resize_id : (t : Text) → resize (length t) t ≡ t
unfolding resize
resize_id [] = refl
resize_id (c ∷ t) = ap (λ u. c ∷ u) (resize_id t)

reg_get_string_lem :
    (api : Api) (key : ℕ) (sub_key name default : Text) (content : Content)
    → Answers api key sub_key name content
    → reg_get_string api key sub_key name default ≡ text_of content default
unfolding reg_get_string
reg_get_string_lem api key sub_key name default missing (size, word) = rw size refl
reg_get_string_lem api key sub_key name default (dword w) (size, word) = rw size refl
reg_get_string_lem api key sub_key name default other (size, word) = rw size refl
reg_get_string_lem api key sub_key name default (text t) (word, short, size, data_of) =
    let whole : resize (length t + 1) (t ++ 0 ∷ []) ≡ t ++ 0 ∷ [] =
      ap (λ n. resize n (t ++ 0 ∷ [])) (omega (arith, length-append t (0 ∷ [])))
      ∙ resize_id (t ++ 0 ∷ []) in
    let cut : (length t + 1 + 0xffffffff) % 2 ^ 32 ≡ length t = omega arith in
    rw size (rw data_of (rw (whole, cut, resize-append t (0 ∷ [])) refl))

reg_get_dword_lem :
    (api : Api) (key : ℕ) (sub_key name : Text) (default : ℕ) (content : Content)
    → Answers api key sub_key name content
    → reg_get_dword api key sub_key name default ≡ word_of (λ w. w) content default
unfolding reg_get_dword
reg_get_dword_lem api key sub_key name default missing (size, word) = rw word refl
reg_get_dword_lem api key sub_key name default (dword w) (size, word) = rw word refl
reg_get_dword_lem api key sub_key name default other (size, word) = rw word refl
reg_get_dword_lem api key sub_key name default (text t) (word, short, size, data_of) = rw word refl

get_bool_value_lem :
    (api : Api) (hklm : ℕ) (key : Text) (content : Content) (flag : Bool)
    → Answers api hklm base_key key content
    → get_bool_value api hklm key flag ≡ word_of (λ w. w != 0) content flag
unfolding get_bool_value
get_bool_value_lem api hklm key content flag answers =
    rw (reg_get_dword_lem api hklm base_key key (if flag then 1 else 0) content answers)
      (by_content content flag)
  where
    by_content :
        (c : Content) (b : Bool)
        → read_then (word_of (λ w. w) c (if b then 1 else 0)) (λ word. value (word != 0))
          ≡ word_of (λ w. w != 0) c b
    by_content missing true = refl
    by_content missing false = refl
    by_content (text t) b = refl
    by_content (dword w) b = refl
    by_content other b = refl

-- On a registry that answers as documented about a value under the key of the program: the
-- getter of texts returns a text without its NUL, the getters of numbers and of Booleans return
-- a DWORD and whether it is not 0, each returns the default of 32 bits if the value is missing,
-- and throws ERROR_UNSUPPORTED_TYPE if it has another type.
pub get_values_lem :
    (api : Api) (hklm : ℕ) (key default : Text) (number : ℕ) (flag : Bool) (content : Content)
    → Answers api hklm base_key key content
    → number < 2 ^ 32
    → (get_string_value api hklm key default ≡ text_of content default)
      × (get_long_value api hklm key number ≡ word_of (λ w. w) content number)
      × (get_bool_value api hklm key flag ≡ word_of (λ w. w != 0) content flag)
unfolding get_string_value get_long_value
get_values_lem api hklm key default number flag content answers small =
    let same : number % 2 ^ 32 ≡ number = omega arith in
    (
      reg_get_string_lem api hklm base_key key default content answers,
      rw same (reg_get_dword_lem api hklm base_key key number content answers),
      get_bool_value_lem api hklm key content flag answers,
    )

-- The answers of the system about the names of a key, and about its values.
pub record Lists (A : Type 0) (info : ℕ × ℕ × ℕ) (call : ℕ → ℕ → ℕ × A) (size : A → ℕ)
    (entries : List A) : Type 0 where
  pub longest : ℕ
  pub known : info ≡ (error_success, length entries, longest)
  pub word : longest + 1 < 2 ^ 32
  pub bounded : (i : ℕ) (a : A) → get_elem? entries i ≡ some a → size a < longest + 1
  pub called :
      (i len : ℕ) (a : A)
      → get_elem? entries i ≡ some a
      → size a < len
      → call i len ≡ (error_success, a)

collect_lem :
    {A : Type 0} (read : ℕ → Read A) (entries : List A) (index : ℕ)
    → ((i : ℕ) (a : A) → get_elem? entries i ≡ some a → read (index + i) ≡ value a)
    → collect read (length entries) index ≡ value entries
unfolding collect
collect_lem read [] index reads = refl
collect_lem read (a ∷ entries) index reads =
    let first : read index ≡ value a =
      subst (λ i. read i ≡ value a) (omega arith) (reads 0 a refl) in
    let rest =
      collect_lem read entries (suc index)
        λ i b e. subst (λ j. read j ≡ value b) (omega arith) (reads (suc i) b e) in
    rw (first, rest) refl

abbrev pub typed : ℕ × Text × ℕ → ℕ × (Text × ℕ)
typed (code, name, kind) = (code, (name, kind))

reg_sub_key_lem :
    (api : Api) (key len i : ℕ) (a : Text)
    → api.enum_key key i len ≡ (error_success, a)
    → reg_sub_key api key len i ≡ value a
unfolding reg_sub_key
reg_sub_key_lem api key len i a e = rw e refl

reg_value_type_lem :
    (api : Api) (key len i : ℕ) (a : Text × ℕ)
    → typed (api.enum_value key i len) ≡ (error_success, a)
    → reg_value_type api key len i ≡ value a
unfolding reg_value_type
reg_value_type_lem api key len i a e = ap (λ (code, b). or_throw code b) e

-- Where the system knows how many names and values a key has and how long their names are at
-- most, and gives each by its index to a buffer that is longer than its name, the enumerations
-- are the names and the values with their types, in their order.
pub reg_enumerate_lem :
    (api : Api) (key : ℕ) (names : List Text) (values : List (Text × ℕ))
    → Lists Text (api.key_info key) (api.enum_key key) (λ t. length t) names
    → Lists
        (Text × ℕ)
        (api.value_info key)
        (λ i len. typed (api.enum_value key i len))
        (λ v. length v.0)
        values
    → (reg_enumerate_sub_keys api key ≡ value names) × (reg_enumerate_values api key ≡ value values)
unfolding reg_enumerate_sub_keys reg_enumerate_values reg_sub_key reg_value_type
reg_enumerate_lem api key names values subs vals =
    let subs_word = subs.word in
    let vals_word = vals.word in
    (
      rw subs.known (
          collect_lem _ names 0 λ i a e. reg_sub_key_lem api key _ (0 + i) a (
            subs.called (0 + i) _ a (subst (λ j. get_elem? names j ≡ some a) (omega arith) e)
              (omega (arith, subs.bounded i a e)))),
      rw vals.known (
          collect_lem _ values 0 λ i a e. reg_value_type_lem api key _ (0 + i) a (
            vals.called (0 + i) _ a (subst (λ j. get_elem? values j ≡ some a) (omega arith) e)
              (omega (arith, vals.bounded i a e)))),
    )
