-- ===== src/Flush/Deletes.antt =====
-- Which statements a flush consists of.
use django_pyturso.Exec.{continue-ok, ok}
use django_pyturso.Flush.Reach.{Reaches, Distinct, IsClosure, references_from-IsClosure}
use django_pyturso.Flush.Sets.{contains-add_all, Distinct-add_all}
use django_pyturso.Flush.Statements.{
  Style, add_all, delete_statement, sequence_reset_by_name_sql, flush_statements, union_graphs,
  union_next, union_with, sql_flush,
}
use django_pyturso.Flush.{
  Catalogue, Edges, edges_to, pragma, resolve, read_edges, references_graph_for_table,
}
use django_pyturso.Prelude.{
  ◌≡◌, refl, ◌∙◌, ◌⊎◌, inl, inr, ◌↔◌, Bool, true, false, some, List, [], ◌∷◌, ◌++◌, map, Text,
  text_eq, text_eq_iff, text_eq_refl, contains, if◌then◌else◌, arith, Bool-cases, ap,
}
use mathlib.Core.Path.{subst}

module _ (catalogue : Catalogue) (names : List Text) (references : Text → List Text) where
  open catalogue use {D, table_names, third_column}

  -- What is assumed of the cursor: the schema does not change between the reads. The introspection
  -- lists these tables, and the pragma of a table lists the tables that its foreign keys reference.
  pub record Reads : Type 0 where
    pub names_read : (d : D) → (table_names d).0 ≡ ok names
    pub references_read :
        (table : Text) (d : D) → (third_column (pragma catalogue table) d).0 ≡ ok (references table)

  -- The foreign keys of these tables.
  abbrev pub keys_of : List Text → Edges
  keys_of [] = []
  keys_of (table ∷ tables) = edges_to catalogue names table (references table) ++ keys_of tables

  -- A flush of these tables is to empty the table `t`.
  abbrev pub IsEmptied : List Text → Bool → Text → Type 0
  IsEmptied tables false t = contains t tables ≡ true
  IsEmptied tables true t =
      (u : Text) × (contains u tables ≡ true) × Reaches (keys_of names) (resolve names u) t

  -- The tables that a flush empties, each once.
  abbrev pub AreTargets : List Text → Bool → List Text → Type 0
  AreTargets tables allow_cascade targets =
      Distinct targets
      × ((t : Text) → (contains t targets ≡ true) ↔ IsEmptied tables allow_cascade t)

  module _ (reads : Reads) where
    read_edges-keys_of :
        (tables : List Text) (d : D) → (read_edges catalogue names tables d).0 ≡ ok (keys_of tables)
    unfolding read_edges
    read_edges-keys_of [] d = refl
    read_edges-keys_of (table ∷ tables) d =
        ap (λ p. p.0)
          (continue-ok (third_column (pragma catalogue table) d) _ (references table)
              (reads.references_read table d)
            ∙ continue-ok (read_edges catalogue names tables _) _ (keys_of tables)
                (read_edges-keys_of tables _))

    -- The tables that reference one table are all found.
    references_graph_for_table-IsClosure :
        (table : Text) (d : D)
        → (graph : List Text) × ((references_graph_for_table catalogue table d).0 ≡ ok (some graph))
          × IsClosure (keys_of names) (resolve names table) graph
    unfolding references_graph_for_table
    references_graph_for_table-IsClosure table d =
        let (graph, e, closure) = references_from-IsClosure (keys_of names) (resolve names table) in
        (
          graph,
          ap (λ p. p.0)
                (continue-ok (table_names d) _ names (reads.names_read d)
                  ∙ continue-ok (read_edges catalogue names names _) _ (keys_of names)
                      (read_edges-keys_of names _))
              ∙ ap ok e,
          closure,
        )

    -- A set of tables: those of `seen`, and those that reference one of the tables.
    abbrev IsUnion : List Text → List Text → List Text → Type 0
    IsUnion tables seen r =
        Distinct r
        × ((t : Text)
            → (contains t r ≡ true) ↔ ((contains t seen ≡ true) ⊎ IsEmptied tables true t))

    IsUnion-empty : (seen : List Text) → Distinct seen → IsUnion [] seen seen
    unfolding contains
    IsUnion-empty seen distinct = (distinct, λ t. (λ h. inl h, back t))
      where
        back : (t : Text) → (contains t seen ≡ true) ⊎ IsEmptied [] true t → contains t seen ≡ true
        back t (inl h) = h
        back t (inr (u, h, _)) = ground (arith, h)

    IsUnion-next :
        (table : Text) (tables seen graph r : List Text)
        → IsClosure (keys_of names) (resolve names table) graph
        → IsUnion tables (add_all seen graph) r
        → IsUnion (table ∷ tables) seen r
    unfolding contains
    IsUnion-next table tables seen graph r closure (distinct, members) =
        (distinct, λ t. (λ h. forth t ((members t).0 h), λ h. (members t).1 (back t h)))
      where
        forth :
            (t : Text)
            → (contains t (add_all seen graph) ≡ true) ⊎ IsEmptied tables true t
            → (contains t seen ≡ true) ⊎ IsEmptied (table ∷ tables) true t
        forth t (inr (u, h, reaches)) = inr (u, ground (arith, h), reaches)
        forth t (inl h) = elim (Bool-cases (contains t graph)) [
          | inl g ↦ inr (table, ground (arith, text_eq_refl table), (closure.1 t).0 g)
          | inr g ↦ inl (ground (arith, h, g, contains-add_all t seen graph))
        ]

        back :
            (t : Text)
            → (contains t seen ≡ true) ⊎ IsEmptied (table ∷ tables) true t
            → (contains t (add_all seen graph) ≡ true) ⊎ IsEmptied tables true t
        back t (inl h) = inl (ground (arith, h, contains-add_all t seen graph))
        back t (inr (u, h, reaches)) = elim (Bool-cases (text_eq u table)) [
          | inl e ↦
              let g = (closure.1 t).1 (
                subst (λ v. Reaches (keys_of names) (resolve names v) t) ((text_eq_iff u table).0 e)
                  reaches) in
              inl (ground (arith, g, contains-add_all t seen graph))
          | inr e ↦ inr (u, ground (arith, h, e), reaches)
        ]

    union_graphs-IsUnion :
        (tables seen : List Text) (d : D)
        → Distinct seen
        → (r : List Text) × ((union_graphs catalogue tables seen d).0 ≡ ok (some r))
          × IsUnion tables seen r
    unfolding union_graphs
    union_graphs-IsUnion [] seen d distinct = (seen, refl, IsUnion-empty seen distinct)
    union_graphs-IsUnion (table ∷ tables) seen d distinct =
        let (graph, e, closure) = references_graph_for_table-IsClosure table d in
        let (r, q, union) =
          union_graphs-IsUnion tables (add_all seen graph) _
            (Distinct-add_all seen graph distinct) in
        (
          r,
          ap (λ p. p.0)
                (continue-ok (references_graph_for_table catalogue table d)
                  (λ g.
                    union_next catalogue (union_with catalogue seen g)
                      (union_graphs catalogue tables))
                  (some graph) e)
              ∙ q,
          IsUnion-next table tables seen graph r closure union,
        )

    targets-found :
        (tables targets : List Text)
        → IsUnion (add_all [] tables) [] targets
        → AreTargets tables true targets
    unfolding contains
    targets-found tables targets (distinct, members) = (
      distinct,
      λ t. (
        λ h. forth t ((members t).0 h),
        λ (u, h, reaches).
            (members t).1 (inr (u, ground (arith, h, contains-add_all u [] tables), reaches)),
      ),
    )
      where
        forth :
            (t : Text)
            → (contains t [] ≡ true) ⊎ IsEmptied (add_all [] tables) true t
            → IsEmptied tables true t
        forth t (inl h) = ground (arith, h)
        forth t (inr (u, h, reaches)) =
            (u, ground (arith, h, contains-add_all u [] tables), reaches)

    -- If the reads of the cursor succeed and agree, a flush answers with one DELETE for each of its
    -- targets and, if sequences are reset, with the reset of the targets' sequences behind them. No
    -- target occurs twice. Without cascade the targets are the given tables; with it
    -- they are the tables that are, or that reference directly or through others, what a given name
    -- resolves to.
    pub sql_flush-Deletes :
        (style : Style) (tables : List Text) (reset_sequences allow_cascade : Bool) (d : D)
        → (targets : List Text) × AreTargets tables allow_cascade targets
          × ((sql_flush catalogue style tables reset_sequences allow_cascade d).0
              ≡ ok (
                  some (
                    map (delete_statement style) targets
                    ++ (if reset_sequences then sequence_reset_by_name_sql style targets else []))))
    unfolding sql_flush flush_statements contains
    sql_flush-Deletes style tables reset_sequences false d = (
      add_all [] tables,
      (
        Distinct-add_all [] tables tt,
        λ t. (
          λ h. ground (arith, h, contains-add_all t [] tables),
          λ h. ground (arith, h, contains-add_all t [] tables),
        ),
      ),
      refl,
    )
    sql_flush-Deletes style tables reset_sequences true d =
        let (targets, e, union) = union_graphs-IsUnion (add_all [] tables) [] d tt in
        (
          targets,
          targets-found tables targets union,
          ap (λ p. p.0)
              (continue-ok (union_graphs catalogue (add_all [] tables) [] d) _ (some targets) e),
        )
