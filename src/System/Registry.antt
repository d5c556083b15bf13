-- ===== src/System/Registry.antt =====
-- src/win32/registry.cpp and src/win32/win32config.cpp: the configuration in the Windows registry.
-- A DWORD is a word of 32 bits, a key handle a number.
pub mod Content
use dns_wrapper.Common.{
  ℕ, zero, suc, ◌+◌, ◌%◌, ◌^◌, Bool, true, false, ◌&&◌, ◌||◌, ◌==◌, ◌!=◌, if◌then◌else◌, List, [],
  ◌∷◌, length,
}
use dns_wrapper.Text.{Text, codes}

abbrev pub error_success : ℕ
error_success = 0

abbrev pub error_file_not_found : ℕ
error_file_not_found = 2

abbrev pub error_bad_pathname : ℕ
error_bad_pathname = 161

abbrev pub error_unsupported_type : ℕ
error_unsupported_type = 1630

-- What the registry functions of the system return: a code, and what they write. `string_size` is
-- `RegGetValue` without a buffer, `string_data` the call with a buffer of so many bytes.
pub record Api : Type 0 where
  pub open_key : ℕ → Text → ℕ → ℕ × ℕ
  pub create_key : ℕ → Text → ℕ → ℕ × ℕ
  pub key_info : ℕ → ℕ × ℕ × ℕ
  pub value_info : ℕ → ℕ × ℕ × ℕ
  pub enum_key : ℕ → ℕ → ℕ → ℕ × Text
  pub enum_value : ℕ → ℕ → ℕ → ℕ × Text × ℕ
  pub get_binary : ℕ → Text → Text → ℕ × ℕ
  pub get_dword : ℕ → Text → Text → ℕ × ℕ
  pub string_size : ℕ → Text → Text → ℕ × ℕ
  pub string_data : ℕ → Text → Text → ℕ → ℕ × Text × ℕ

-- A value, or a `RegistryError` with its code.
pub data Read (A : Type 0) : Type 0 where
  value : A → Read A
  registry_error : ℕ → Read A

abbrev pub read_then : {A B : Type 0} → Read A → (A → Read B) → Read B
read_then (value a) f = f a
read_then (registry_error e) f = registry_error e

-- `if (retCode != ERROR_SUCCESS) throw RegistryError{...}`
abbrev pub or_throw : {A : Type 0} → ℕ → A → Read A
or_throw code a = if code != error_success then registry_error code else value a

-- `HANDLE_ERROR`
abbrev pub handle_error : {A : Type 0} → ℕ → A → Read A → Read A
handle_error code default rest =
    if code == error_file_not_found || code == error_bad_pathname
    then value default
    else if code != error_success
    then registry_error code
    else rest

-- `Win32ConfigReader::baseKey`
abbrev pub base_key : Text
base_key = codes "SOFTWARE\\NetDevId\\DnsWrapper\\main"

-- `std::string::resize`
unfoldable pub resize : ℕ → Text → Text
resize zero t = []
resize (suc n) [] = 0 ∷ resize n []
resize (suc n) (c ∷ t) = c ∷ resize n t

-- `for (DWORD index = 0; index < valueCount; index++)`, with the rounds that are left.
unfoldable pub collect : {A : Type 0} → (ℕ → Read A) → ℕ → ℕ → Read (List A)
collect read zero index = value []
collect read (suc n) index =
    read_then (read index) λ a. read_then (collect read n (suc index)) λ rest. value (a ∷ rest)

module _ (api : Api) where
  -- `CreateKey`
  unfoldable pub create_key : ℕ → Text → ℕ → Read ℕ
  create_key parent sub_key sam =
      let (code, key) = api.create_key parent sub_key sam in or_throw code key

  -- `OpenKey`
  unfoldable pub open_key : ℕ → Text → ℕ → Bool → Read ℕ
  unfolding create_key
  open_key parent sub_key sam create =
      let (code, key) = api.open_key parent sub_key sam in
      if code != error_success
      then (if create && code == error_file_not_found
          then create_key parent sub_key sam
          else registry_error code)
      else value key

  -- `RegSubKey` and `RegValueType`
  unfoldable pub reg_sub_key : ℕ → ℕ → ℕ → Read Text
  reg_sub_key key len index = let (code, name) = api.enum_key key index len in or_throw code name

  unfoldable pub reg_value_type : ℕ → ℕ → ℕ → Read (Text × ℕ)
  reg_value_type key len index =
      let (code, name, kind) = api.enum_value key index len in or_throw code (name, kind)

  -- `RegEnumerateSubKeys` and `RegEnumerateValues`
  unfoldable pub reg_enumerate_sub_keys : ℕ → Read (List Text)
  unfolding reg_sub_key collect
  reg_enumerate_sub_keys key =
      let (code, count, longest) = api.key_info key in
      read_then (or_throw code tt)
        λ (u : Unit {0}). collect (λ index. reg_sub_key key ((longest + 1) % 2 ^ 32) index) count 0

  unfoldable pub reg_enumerate_values : ℕ → Read (List (Text × ℕ))
  unfolding reg_value_type collect
  reg_enumerate_values key =
      let (code, count, longest) = api.value_info key in
      read_then (or_throw code tt) λ (u : Unit {0}).
        collect (λ index. reg_value_type key ((longest + 1) % 2 ^ 32) index) count 0

  unfoldable pub reg_get_boolean : ℕ → Text → Text → Bool → Read Bool
  reg_get_boolean key sub_key name default =
      let (code, byte) = api.get_binary key sub_key name in
      handle_error code default (value (byte != 0))

  unfoldable pub reg_get_dword : ℕ → Text → Text → ℕ → Read ℕ
  reg_get_dword key sub_key name default =
      let (code, word) = api.get_dword key sub_key name in handle_error code default (value word)

  -- The length without the NUL that the system writes is a DWORD too.
  unfoldable pub reg_get_string : ℕ → Text → Text → Text → Read Text
  unfolding resize
  reg_get_string key sub_key name default =
      let (code, size) = api.string_size key sub_key name in
      handle_error code default (
        let (code', text, size') = api.string_data key sub_key name size in
        handle_error code' default
          (value (resize ((size' + 0xffffffff) % 2 ^ 32) (resize size text))))

-- `Win32ConfigReader`: `hklm` stands for HKEY_LOCAL_MACHINE.
module _ (api : Api) (hklm : ℕ) where
  unfoldable pub get_string_value : Text → Text → Read Text
  unfolding reg_get_string
  get_string_value key default = reg_get_string api hklm base_key key default

  -- A `long` has 32 bits there.
  unfoldable pub get_long_value : Text → ℕ → Read ℕ
  unfolding reg_get_dword
  get_long_value key default = reg_get_dword api hklm base_key key (default % 2 ^ 32)

  unfoldable pub get_bool_value : Text → Bool → Read Bool
  unfolding reg_get_dword
  get_bool_value key default =
      read_then (reg_get_dword api hklm base_key key (if default then 1 else 0))
        λ word. value (word != 0)
