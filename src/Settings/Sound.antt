-- ===== src/Settings/Sound.antt =====
-- What an accepted configuration guarantees.
use mathlib.Core.Path.{subst}
use django_pyturso.Exec.{improperly_configured, Answer, ok, raised, continue-pure}
use django_pyturso.Settings.{
  Modes, SettingsDict, Value, is_nonempty, is_remote, has_remote_setting, transaction_modes,
  journal_modes, get_connection_params, configure_modes, parse_mode, parse_transaction_mode,
  parse_journal_mode, database_path, check_options, check_modes, has_unknown, read_options, text,
  path_text, path_like, null, path_error, path_bytes, bytes, opaque, get_option,
  parse_journal_value, Options, not_mapping, mapping, text_keys,
}
use django_pyturso.Prelude.{
  ◌≡◌, refl, ◌⊎◌, inl, inr, true, false, Option, none, some, List, Text, codes, text_eq_iff,
  contains, arith, Bool-cases, Option-cases, text_eq, ap, [], sym,
}

-- A nonempty path that is neither a URL nor a file URI.
abbrev pub IsLocal : Text → Type 0
IsLocal database = (is_nonempty database ≡ true) × (is_remote database ≡ false)

-- Known modes, and MVCC under a concurrent transaction mode.
abbrev pub AreCompatible : Modes → Type 0
AreCompatible m =
    (contains m.transaction_mode transaction_modes ≡ true)
    × ((m.journal_mode ≡ none)
        ⊎ ((j : Text) × (m.journal_mode ≡ some j) × (contains j journal_modes ≡ true)))
    × (m.transaction_mode ≡ codes "CONCURRENT" → m.journal_mode ≡ some (codes "MVCC"))

database_path-IsLocal :
    (name : Value)
    → (database_path name ≡ raised improperly_configured)
      ⊎ ((d : Text) × (database_path name ≡ ok d) × IsLocal d)
unfolding database_path
database_path-IsLocal null = inl refl
database_path-IsLocal (text t) = elim (Bool-cases (is_remote t)) [
  | inl r ↦ inl (ground arith)
  | inr r ↦ elim (Bool-cases (is_nonempty t)) [
    | inl n ↦ inr (t, ground arith, (n, r))
    | inr n ↦ inl (ground arith)
  ]
]
database_path-IsLocal (bytes t) = inl (ground arith)
database_path-IsLocal (path_like (path_text t)) = elim (Bool-cases (is_remote t)) [
  | inl r ↦ inl (ground arith)
  | inr r ↦ elim (Bool-cases (is_nonempty t)) [
    | inl n ↦ inr (t, ground arith, (n, r))
    | inr n ↦ inl (ground arith)
  ]
]
database_path-IsLocal (path_like (path_bytes _)) = inl refl
database_path-IsLocal (path_like path_error) = inl refl
database_path-IsLocal (opaque b) = inl (ground arith)

read_options_lem :
    (o : Options)
    → (read_options o ≡ raised improperly_configured)
      ⊎ ((options : List (Text × Value)) × (read_options o ≡ ok options))
unfolding read_options
read_options_lem (not_mapping true) = inl refl
read_options_lem (not_mapping false) = inr ([], refl)
read_options_lem (mapping items) = elim (Option-cases (text_keys items)) [
  | inl e ↦ inl (ground (arith, e))
  | inr (options, e) ↦ inr (options, ground (arith, e))
]

check_options_lem :
    (s : SettingsDict)
    → (check_options s ≡ raised improperly_configured)
      ⊎ ((options : List (Text × Value)) × (check_options s ≡ ok options)
          × (has_remote_setting s ≡ false))
check_options_lem s = elim (Bool-cases (has_remote_setting s)) [
  | inl y ↦ inl (ground (arith, y))
  | inr n ↦ elim (read_options_lem s.options) [
    | inl e ↦ inl (ground (arith, n, e))
    | inr (options, e) ↦ inr (options, ground (arith, n, e), n)
  ]
]

module _ (upper : Text → Text) where
  parse_mode_allowed :
      (allowed : List Text) (value : Value)
      → (parse_mode upper allowed value ≡ raised improperly_configured)
        ⊎ ((t : Text) × (parse_mode upper allowed value ≡ ok t) × (contains t allowed ≡ true))
  unfolding parse_mode
  parse_mode_allowed allowed (text t) = elim (Bool-cases (contains (upper t) allowed)) [
    | inl y ↦ inr (upper t, ground arith, y)
    | inr n ↦ inl (ground arith)
  ]
  parse_mode_allowed allowed null = inl refl
  parse_mode_allowed allowed (bytes _) = inl refl
  parse_mode_allowed allowed (path_like _) = inl refl
  parse_mode_allowed allowed (opaque _) = inl refl

  parse_transaction_mode_allowed :
      (options : List (Text × Value))
      → (parse_transaction_mode upper options ≡ raised improperly_configured)
        ⊎ ((t : Text) × (parse_transaction_mode upper options ≡ ok t)
            × (contains t transaction_modes ≡ true))
  unfolding parse_transaction_mode
  parse_transaction_mode_allowed options = parse_mode_allowed transaction_modes _

  parse_journal_value_allowed :
      (o : Option Value)
      → (parse_journal_value upper o ≡ raised improperly_configured)
        ⊎ (parse_journal_value upper o ≡ ok none)
        ⊎ ((t : Text) × (parse_journal_value upper o ≡ ok (some t))
            × (contains t journal_modes ≡ true))
  parse_journal_value_allowed none = inr (inl refl)
  parse_journal_value_allowed (some raw) = elim (parse_mode_allowed journal_modes raw) [
    | inl bad ↦ inl (ground (arith, bad))
    | inr (t, good, allowed) ↦ inr (inr (t, ground (arith, good), allowed))
  ]

  -- A configuration that was refused, or one whose modes go together.
  abbrev Configures : Answer (Unit {0}) × Modes → Type 0
  Configures (r, m) = (r ≡ raised improperly_configured) ⊎ ((r ≡ ok tt) × AreCompatible m)

  check_modes_lem :
      (mode : Text) (journal : Option Text)
      → (contains mode transaction_modes ≡ true)
      → ((journal ≡ none) ⊎ ((j : Text) × (journal ≡ some j) × (contains j journal_modes ≡ true)))
      → Configures (
        check_modes upper mode journal,
        record { transaction_mode = mode; journal_mode = journal },
      )
  check_modes_lem mode none known allowed = elim (Bool-cases (text_eq mode (codes "CONCURRENT"))) [
    | inl c ↦ inl (ground (arith, c))
    | inr c ↦ inr (
      ground (arith, c),
      (known, allowed, λ h. ground (arith, text_eq_iff mode (codes "CONCURRENT"))),
    )
  ]
  check_modes_lem mode (some j) known allowed = elim (Bool-cases (text_eq j (codes "MVCC"))) [
    | inl v ↦
        inr (ground (arith, v), (known, allowed, λ h. ap some ((text_eq_iff j (codes "MVCC")).0 v)))
    | inr v ↦ elim (Bool-cases (text_eq mode (codes "CONCURRENT"))) [
      | inl c ↦ inl (ground (arith, c, v))
      | inr c ↦ inr (
        ground (arith, c),
        (known, allowed, λ h. ground (arith, text_eq_iff mode (codes "CONCURRENT"))),
      )
    ]
  ]

  configure_modes-Configures :
      (options : List (Text × Value)) (m : Modes) → Configures (configure_modes upper options m)
  unfolding configure_modes parse_journal_mode
  configure_modes-Configures options m = elim (parse_transaction_mode_allowed options) [
    | inl bad ↦ inl (ground (arith, bad))
    | inr (mode, good, known) ↦
        elim (parse_journal_value_allowed (get_option (codes "journal_mode") options)) [
          | inl bad ↦ inl (ground (arith, good, bad))
          | inr (inl none_set) ↦ simp (good, none_set) (check_modes_lem mode none known (inl refl))
          | inr (inr (j, set, allowed)) ↦
              simp (good, set) (check_modes_lem mode (some j) known (inr (j, refl, allowed)))
        ]
  ]

  modes-get_connection_params :
      (s : SettingsDict) (m : Modes) (d : Text) (options : List (Text × Value))
      → database_path s.name ≡ ok d
      → check_options s ≡ ok options
      → has_unknown options ≡ false
      → (get_connection_params upper s m).1 ≡ (configure_modes upper options m).1
  unfolding get_connection_params
  modes-get_connection_params s m d options path good known =
      simp (path, good, known) (continue-pure d (configure_modes upper options m))

  -- Reading the database settings either raises `ImproperlyConfigured`, or returns a local,
  -- nonempty path. In that case no remote setting is true, the transaction mode and the
  -- journal mode that are stored are known ones, and `CONCURRENT` comes with `MVCC`.
  pub get_connection_params-IsSound :
      (s : SettingsDict) (m : Modes)
      → let (r, m') = get_connection_params upper s m in
        (r ≡ raised improperly_configured)
        ⊎ ((database : Text) × (r ≡ ok database)
            × IsLocal database
            × (has_remote_setting s ≡ false)
            × AreCompatible m')
  unfolding get_connection_params
  get_connection_params-IsSound s m = elim (database_path-IsLocal s.name) [
    | inl bad ↦ inl (ground (arith, bad))
    | inr (d, path, place) ↦ elim (check_options_lem s) [
      | inl bad ↦ inl (ground (arith, path, bad))
      | inr (options, good, near) ↦ elim (Bool-cases (has_unknown options)) [
        | inl unknown ↦ inl (ground (arith, path, good, unknown))
        | inr known ↦ elim (configure_modes-Configures options m) [
          | inl bad ↦ inl (ground (arith, path, good, known, bad))
          | inr (done, fit) ↦ inr (
            d,
            ground (arith, path, good, known, done),
            place,
            near,
            subst AreCompatible (sym (modes-get_connection_params s m d options path good known))
                fit,
          )
        ]
      ]
    ]
  ]
