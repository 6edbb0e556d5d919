-- ===== src/Description/Sizes.antt =====
-- The sizes of columns that are read from a `CREATE TABLE` statement.
use django_pyturso.Constraints.Table.{after_opening}
use django_pyturso.Constraints.{SqlTokens}
use django_pyturso.Decimals.{decimal}
use django_pyturso.Description.Columns.{
  behind_opening, table_constraint_keywords, type_of_definition, set_size, add_size, next_depth,
  ends_definition, run_sizes, get_column_sizes,
}
use django_pyturso.FieldTypes.RoundTrip.{get_field_size-get_varchar_column}
use django_pyturso.FieldTypes.{get_varchar_column, get_field_size}
use django_pyturso.Identifiers.RoundTrip.{unquote_identifier-quote_name}
use django_pyturso.Identifiers.{is_quoted, quote_name, unquote_identifier}
use django_pyturso.Prelude.{
  ℕ, ◌≡◌, refl, ◌∙◌, ap, Bool, true, false, not, ◌&&◌, Option, none, some, List, [], ◌∷◌, ◌++◌,
  Text, codes, text_eq, ◌||◌, ◌==◌, Dict, arith, append_assoc, append-nil, All, text_eq,
}

-- A column of a table as the backend declares it: its name, the maximal length of its `varchar`, and
-- what the declaration has behind the type.
pub record Column (Token : Type 0) : Type 0 where
  pub name : Text
  pub max_length : Option ℕ
  pub options : List Token

module _ (tokens : SqlTokens) where
  open tokens use {Token, value, match_punctuation, match_keyword}

  -- All parentheses are closed, with no comma or closing parenthesis outside of them.
  abbrev pub is_closed : ℕ → List Token → Bool
  is_closed depth [] = depth == 0
  is_closed depth (t ∷ ts) =
      not (ends_definition tokens t depth) && is_closed (next_depth tokens t depth) ts

  run_sizes-is_closed :
      (piece rest definition : List Token) (depth : ℕ) (sizes : Dict ℕ)
      → is_closed depth piece ≡ true
      → run_sizes tokens (piece ++ rest) definition depth sizes
        ≡ run_sizes tokens rest (definition ++ piece) 0 sizes
  unfolding run_sizes
  run_sizes-is_closed [] rest definition depth sizes h = rw append-nil (ground (arith, h))
  run_sizes-is_closed (t ∷ ts) rest definition depth sizes h =
      let goes_on : ends_definition tokens t depth ≡ false = ground (arith, h) in
      simp goes_on (
        run_sizes-is_closed ts rest (definition ++ t ∷ []) (next_depth tokens t depth) sizes
          (ground (arith, h))
        ∙ ap (λ d. run_sizes tokens rest d 0 sizes) (append_assoc definition (t ∷ []) ts))

  module _ (word mark : Text → Token) where
    -- What is assumed of sqlparse's tokens: a word and a mark of punctuation have their text, only
    -- the mark matches as punctuation, by its text, and a quoted name is no keyword.
    pub record Prints : Type 0 where
      pub value_word : (t : Text) → value (word t) ≡ t
      pub value_mark : (p : Text) → value (mark p) ≡ p
      pub match_word : (t p : Text) → match_punctuation (word t) p ≡ false
      pub match_mark : (p q : Text) → match_punctuation (mark p) q ≡ text_eq p q
      pub no_keyword :
          (name : Text) → match_keyword (word (quote_name name)) table_constraint_keywords ≡ false

    -- The tokens of the type, and of the whole definition.
    abbrev pub type_tokens : Option ℕ → List Token → List Token
    type_tokens none options = word (codes "varchar") ∷ options
    type_tokens (some n) options =
        word (codes "varchar") ∷ mark (codes "(") ∷ word (decimal n) ∷ mark (codes ")") ∷ options

    abbrev pub definition : Column Token → List Token
    definition c = word (quote_name c.name) ∷ type_tokens c.max_length c.options

    -- The name is not quoted, and the options have their parentheses closed and begin with none.
    abbrev pub opens : List Token → Bool
    opens [] = false
    opens (t ∷ ts) = match_punctuation t (codes "(")

    abbrev pub IsDeclarable : Column Token → Type 0
    IsDeclarable c =
        (is_quoted b'"' b'"' c.name ≡ false)
        × (opens c.options ≡ false)
        × (is_closed 0 c.options ≡ true)

    -- The definitions with commas between them, the closing parenthesis and what is behind it.
    abbrev pub body : Column Token → List (Column Token) → List Token → List Token
    body c [] rest = definition c ++ mark (codes ")") ∷ rest
    body c (c' ∷ cs) rest = definition c ++ mark (codes ",") ∷ body c' cs rest

    -- The sizes of the columns, where the last one of a name counts.
    abbrev pub declared_sizes : List (Column Token) → Dict ℕ → Dict ℕ
    declared_sizes [] sizes = sizes
    declared_sizes (c ∷ cs) sizes = declared_sizes cs (set_size tokens c.name c.max_length sizes)

    module _ (prints : Prints) where
      get_field_size-type_of_definition :
          (size : Option ℕ) (options : List Token)
          → opens options ≡ false
          → get_field_size (type_of_definition tokens (type_tokens size options)) ≡ size
      unfolding unquote_identifier get_varchar_column text_eq
      get_field_size-type_of_definition none [] h =
          rw (prints.value_word (codes "varchar")) (get_field_size-get_varchar_column none).0
      get_field_size-type_of_definition none (t ∷ ts) h =
          simp (h, prints.value_word (codes "varchar")) (get_field_size-get_varchar_column none).0
      get_field_size-type_of_definition (some n) options h =
          rw
            (
              prints.match_mark (codes "(") (codes "("),
              prints.value_word (codes "varchar"),
              prints.value_mark (codes "("),
              prints.value_word (decimal n),
              prints.value_mark (codes ")"),
            )
            (get_field_size-get_varchar_column (some n)).0

      add_size-definition :
          (c : Column Token) (sizes : Dict ℕ)
          → IsDeclarable c
          → add_size tokens (definition c) sizes ≡ set_size tokens c.name c.max_length sizes
      unfolding add_size
      add_size-definition c sizes h =
          rw
            (
              prints.no_keyword c.name,
              prints.value_word (quote_name c.name),
              unquote_identifier-quote_name c.name h.0,
              get_field_size-type_of_definition c.max_length c.options h.1,
            )
            refl

      type_tokens-is_closed :
          (size : Option ℕ) (options : List Token)
          → is_closed 0 options ≡ true
          → is_closed 0 (type_tokens size options) ≡ true
      unfolding text_eq
      type_tokens-is_closed none options h = ground (
        arith,
        prints.match_word (codes "varchar") (codes ","),
        prints.match_word (codes "varchar") (codes ")"),
        prints.match_word (codes "varchar") (codes "("),
        h,
      )
      type_tokens-is_closed (some n) options h =
          simp
            (
              prints.match_word (codes "varchar"),
              prints.match_word (decimal n),
              prints.match_mark (codes "("),
              prints.match_mark (codes ")"),
            )
            h

      definition-is_closed : (c : Column Token) → IsDeclarable c → is_closed 0 (definition c) ≡ true
      definition-is_closed c h =
          simp (prints.match_word (quote_name c.name))
            (type_tokens-is_closed c.max_length c.options h.2)

      -- One definition and the mark behind it.
      run_sizes-definition :
          (c : Column Token) (p : Text) (rest : List Token) (sizes : Dict ℕ)
          → IsDeclarable c
          → run_sizes tokens (definition c ++ mark p ∷ rest) [] 0 sizes
            ≡ run_sizes tokens (mark p ∷ rest) (definition c) 0 sizes
      run_sizes-definition c p rest sizes h =
          run_sizes-is_closed (definition c) (mark p ∷ rest) [] 0 sizes (definition-is_closed c h)

      run_sizes-body :
          (c : Column Token) (cs : List (Column Token)) (rest : List Token) (sizes : Dict ℕ)
          → All IsDeclarable (c ∷ cs)
          → run_sizes tokens (body c cs rest) [] 0 sizes ≡ declared_sizes (c ∷ cs) sizes
      unfolding run_sizes text_eq
      run_sizes-body c [] rest sizes h =
          run_sizes-definition c (codes ")") rest sizes h.0
          ∙ simp (prints.match_mark (codes ")"), prints.value_mark (codes ")"))
              (add_size-definition c sizes h.0)
      run_sizes-body c (c' ∷ cs) rest sizes h =
          run_sizes-definition c (codes ",") (body c' cs rest) sizes h.0
          ∙ simp
              (
                prints.match_mark (codes ","),
                prints.value_mark (codes ","),
                add_size-definition c sizes h.0,
              )
              (run_sizes-body c' cs rest (set_size tokens c.name c.max_length sizes) h.1)

      -- Nothing opens a parenthesis.
      abbrev pub has_opening : List Token → Bool
      has_opening [] = false
      has_opening (t ∷ ts) = match_punctuation t (codes "(") || has_opening ts

      after_opening-append :
          (head ts : List Token)
          → has_opening head ≡ false
          → after_opening tokens (head ++ mark (codes "(") ∷ ts) ≡ some ts
      unfolding after_opening text_eq
      after_opening-append [] ts h = simp (prints.match_mark (codes "(")) refl
      after_opening-append (t ∷ head) ts h = ground (arith, h, after_opening-append head ts)

      -- The sizes that the introspection reads from a stored `CREATE TABLE` statement are the maximal
      -- lengths of the `varchar` columns that it declares, under their unquoted names. Each column has
      -- the type that the backend gives a `CharField`, and behind it any options with their
      -- parentheses closed, such as defaults and checks. What is before the list of columns has no
      -- parenthesis.
      pub get_column_sizes-body :
          (head : List Token) (c : Column Token) (cs : List (Column Token)) (rest : List Token)
          → has_opening head ≡ false
          → All IsDeclarable (c ∷ cs)
          → get_column_sizes tokens (head ++ mark (codes "(") ∷ body c cs rest)
            ≡ declared_sizes (c ∷ cs) []
      unfolding get_column_sizes
      get_column_sizes-body head c cs rest h k =
          ap (λ o. run_sizes tokens (behind_opening tokens o) [] 0 [])
            (after_opening-append head (body c cs rest) h)
          ∙ run_sizes-body c cs rest [] k
