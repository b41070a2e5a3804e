-- ===== src/Kernel/Canonicalize/Normal.antt =====
-- The value that a VCHF-2 text stands for: keys sorted at every level, and no -0. `print` is its
-- text, written without sorting or errors.
use verity_os_v.Base.{
  ℕ, ◌+◌, Str, codes, sort_by, Bool, true, false, ◌&&◌, ◌||◌, not, List, [], ◌∷◌, ◌++◌, ltb,
}
use verity_os_v.Kernel.Canonicalize.{
  Value, null, boolean, integer, non_integer, string, array, object, unsupported, Items, nil, cons,
  Fields, end, field, key_lt, stringify_integer, quote,
}

unfoldable pub to_fields : List (Str × Value) → Fields
to_fields [] = end
to_fields ((k, v) ∷ l) = field k v (to_fields l)

unfoldable mutual
  pub normal : Value → Value
  normal null = null
  normal (boolean b) = boolean b
  normal (integer negative n) = integer (negative && ltb 0 n) n
  normal non_integer = non_integer
  normal (string s) = string s
  normal (array xs) = array (normal_items xs)
  normal (object fs) = object (to_fields (sort_by key_lt (normal_fields fs)))
  normal unsupported = unsupported

  pub normal_items : Items → Items
  normal_items nil = nil
  normal_items (cons x xs) = cons (normal x) (normal_items xs)

  pub normal_fields : Fields → List (Str × Value)
  normal_fields end = []
  normal_fields (field k v fs) = (k, normal v) ∷ normal_fields fs

unfoldable mutual
  pub print : Value → Str
  print null = codes "null"
  print (boolean true) = codes "true"
  print (boolean false) = codes "false"
  print (integer negative n) = stringify_integer negative n
  print non_integer = []
  print (string s) = quote s
  print (array xs) = b'[' ∷ print_items xs
  print (object fs) = b'{' ∷ print_fields fs
  print unsupported = []

  pub print_items : Items → Str
  print_items nil = b']' ∷ []
  print_items (cons x xs) = print x ++ print_more_items xs

  pub print_more_items : Items → Str
  print_more_items nil = b']' ∷ []
  print_more_items (cons x xs) = b',' ∷ print x ++ print_more_items xs

  pub print_fields : Fields → Str
  print_fields end = b'}' ∷ []
  print_fields (field k v fs) = (quote k ++ b':' ∷ print v) ++ print_more_fields fs

  pub print_more_fields : Fields → Str
  print_more_fields end = b'}' ∷ []
  print_more_fields (field k v fs) = b',' ∷ (quote k ++ b':' ∷ print v) ++ print_more_fields fs

-- Values with a text of their own.
unfoldable mutual
  pub is_plain : Value → Bool
  is_plain (integer negative n) = not negative || ltb 0 n
  is_plain non_integer = false
  is_plain unsupported = false
  is_plain (array xs) = is_plain_items xs
  is_plain (object fs) = is_plain_fields fs
  is_plain _ = true

  pub is_plain_items : Items → Bool
  is_plain_items nil = true
  is_plain_items (cons x xs) = is_plain x && is_plain_items xs

  pub is_plain_fields : Fields → Bool
  is_plain_fields end = true
  is_plain_fields (field k v fs) = is_plain v && is_plain_fields fs

-- The fuel that reading the text takes.
unfoldable mutual
  pub size : Value → ℕ
  size (array xs) = 1 + size_items xs
  size (object fs) = 1 + size_fields fs
  size _ = 1

  pub size_items : Items → ℕ
  size_items nil = 1
  size_items (cons x xs) = 1 + size x + size_items xs

  pub size_fields : Fields → ℕ
  size_fields end = 1
  size_fields (field k v fs) = 2 + size v + size_fields fs
