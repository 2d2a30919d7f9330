-- ===== src/Migrations/Load.antt =====
-- `load_migrations` of app/infrastructure/migrations/runner.py. The directory, the match of a name with
-- `_FILE_NAME`, UTF-8 and SHA-256 come as parameters.
use text.Mathlib.Text.{◌==◌ as str_eq}
use aethergrid.Base.{
  ℕ, ◌+◌, ◌≡◌, refl, Bool, true, not, Option, none, some, List, [], ◌∷◌, String, ltb, ◌==◌, any,
  arith, if◌then◌else◌, Result, ok, raise, and_then, migration_error, Option-cases, subst, sym, ap,
  ◌∙◌, Bool-cases, inl, inr, and_then-ok, Member, All, length, filter, ◌⊎◌,
}
use aethergrid.Migrations.{Migration, Numbered}

pub record File (Bytes : Type 0) : Type 0 where
  pub name : String
  pub content : Bytes

-- What the code calls: `path.suffix == ".sql"`, the version of a name that matches, `bytes.decode`, the
-- digest, and the first line without a carriage return at its end.
pub record Reader : Type 1 where
  pub Bytes : Type 0
  pub is_sql : String → Bool
  pub version_of : String → Option ℕ
  pub decode : Bytes → Option String
  pub sha256 : Bytes → String
  pub first_line : String → String

-- NO_TRANSACTION_MARKER
abbrev pub no_transaction_marker : String
no_transaction_marker = "-- migration: no-transaction"

-- `sorted(found)`, one version after the other.
unfoldable pub insert_by_version : Migration → List Migration → List Migration
insert_by_version m [] = m ∷ []
insert_by_version m (n ∷ ns) =
    if ltb n.version m.version then n ∷ insert_by_version m ns else m ∷ n ∷ ns

-- `enumerate(sorted(found), start=1)`
unfoldable pub check_versions : ℕ → List Migration → Result (Unit {0})
check_versions expected [] = ok tt
check_versions expected (m ∷ ms) =
    let rest = check_versions (expected + 1) ms in
    if m.version == expected then rest else raise migration_error

module _ (R : Reader) where
  open R use {Bytes, is_sql, version_of, decode, sha256, first_line}

  abbrev pub to_migration : ℕ → File Bytes → String → Migration
  to_migration version file sql = record {
    version = version;
    name = file.name;
    sql = sql;
    checksum = sha256 file.content;
    transactional = not (str_eq (first_line sql) no_transaction_marker);
  }

  -- The body of the loop over the files, for a file that ends in `.sql`.
  unfoldable pub read_file : File Bytes → List Migration → Result (List Migration)
  unfolding insert_by_version
  read_file file found = elim (version_of file.name) [
    | none ↦ raise migration_error
    | some version ↦
        if any (λ (m : Migration). m.version == version) found
        then raise migration_error
        else elim (decode file.content) [
          | none ↦ raise migration_error
          | some sql ↦ ok (insert_by_version (to_migration version file sql) found)
        ]
  ]

  -- `found` is kept in the order of the versions.
  unfoldable pub read_files : List (File Bytes) → List Migration → Result (List Migration)
  unfolding read_file
  read_files [] found = ok found
  read_files (file ∷ files) found =
      let skipped = read_files files found in
      let rest = and_then (read_file file found) λ found'. read_files files found' in
      if not (is_sql file.name) then skipped else rest

  -- `load_migrations`. `none` is a directory that does not exist.
  unfoldable pub load_migrations : Option (List (File Bytes)) → Result (List Migration)
  unfolding read_files check_versions
  load_migrations none = raise migration_error
  load_migrations (some files) =
      and_then (read_files files []) λ found. and_then (check_versions 1 found) λ _. ok found

check_versions-Numbered :
    (k : ℕ) (ms : List Migration)
    → check_versions k ms ≡ ok tt
    → Numbered (λ (m : Migration). m.version) k ms
unfolding check_versions
check_versions-Numbered k [] h = tt
check_versions-Numbered k (m ∷ ms) h = ground (arith, check_versions-Numbered (k + 1) ms)

insert-Member :
    (m n : Migration) (ms : List Migration)
    → (n ≡ m) ⊎ Member n ms
    → Member n (insert_by_version m ms)
unfolding insert_by_version
insert-Member m n [] h = ground arith
insert-Member m n (x ∷ xs) h = elim (Bool-cases (ltb x.version m.version)) [
  | inr e ↦ rw e h
  | inl e ↦ rw e (elim h [
    | inl same ↦ inr (insert-Member m n xs (inl same))
    | inr (inl here) ↦ inl here
    | inr (inr there) ↦ inr (insert-Member m n xs (inr there))
  ])
]

length-insert :
    (m : Migration) (ms : List Migration) → length (insert_by_version m ms) ≡ length ms + 1
unfolding insert_by_version
length-insert m [] = omega arith
length-insert m (x ∷ xs) = ground (arith, length-insert m xs)

module _ (R : Reader) where
  open R use {Bytes, is_sql, version_of, decode}

  -- The migration of a file is among those that were loaded.
  pub record IsLoaded (ms : List Migration) (file : File Bytes) : Type 0 where
    pub version : ℕ
    pub sql : String
    pub named : version_of file.name ≡ some version
    pub decoded : decode file.content ≡ some sql
    pub member : Member (to_migration R version file sql) ms

  pub record Loads (files : List (File Bytes)) (found ms : List Migration) : Type 0 where
    pub count : length ms ≡ length (filter (λ (f : File Bytes). is_sql f.name) files) + length found
    pub each : All (λ f. is_sql f.name ≡ true → IsLoaded ms f) files
    pub kept : (m : Migration) → Member m found → Member m ms

  read_file-Loads :
      (file : File Bytes) (found found' : List Migration)
      → read_file R file found ≡ ok found'
      → IsLoaded found' file
        × (length found' ≡ length found + 1)
        × ((m : Migration) → Member m found → Member m found')
  unfolding read_file
  read_file-Loads file found found' h = elim (Option-cases (version_of file.name)) [
    | inl e ↦ ground arith
    | inr (version, e) ↦ elim (Bool-cases (any (λ (m : Migration). m.version == version) found)) [
      | inl e2 ↦ ground arith
      | inr e2 ↦ elim (Option-cases (decode file.content)) [
        | inl e3 ↦ ground arith
        | inr (sql, e3) ↦
            let m : Migration = to_migration R version file sql in
            let same : insert_by_version m found ≡ found' = ground arith in
            (
              record {
                version = version;
                sql = sql;
                named = e;
                decoded = e3;
                member = subst (Member m) same (insert-Member m m found (inl refl));
              },
              ap length (sym same) ∙ length-insert m found,
              λ n k. subst (Member n) same (insert-Member m n found (inr k)),
            )
      ]
    ]
  ]

  read_files-Loads :
      (files : List (File Bytes)) (found ms : List Migration)
      → read_files R files found ≡ ok ms
      → Loads files found ms
  unfolding read_files
  read_files-Loads [] found ms h = ground arith
  read_files-Loads (file ∷ files) found ms h = elim (Bool-cases (is_sql file.name)) [
    | inr e ↦
        let rest : Loads files found ms = read_files-Loads files found ms (ground arith) in
        record {
          count = rw e rest.count;
          each = ((λ sql. absurd (ground arith)), rest.each);
          kept = rest.kept;
        }
    | inl e ↦
        let both : and_then (read_file R file found) (λ found'. read_files R files found') ≡ ok ms =
          ground arith in
        let (found', first, h') = and_then-ok _ _ _ both in
        let (loaded, n, kept) = read_file-Loads file found found' first in
        let rest : Loads files found' ms = read_files-Loads files found' ms h' in
        record {
          count = rw e (omega (arith, rest.count, n));
          each = (
            λ _. record {
              version = loaded.version;
              sql = loaded.sql;
              named = loaded.named;
              decoded = loaded.decoded;
              member = rest.kept _ loaded.member;
            },
            rest.each,
          );
          kept = λ m k. rest.kept m (kept m k);
        }
  ]

  -- What is loaded is the files of the directory that end in `.sql`: as many migrations as there are
  -- such files, one for each with its version, text and checksum, numbered from 1 on without a gap.
  pub load_migrations-Loads :
      (files : List (File Bytes)) (ms : List Migration)
      → load_migrations R (some files) ≡ ok ms
      → Loads files [] ms × Numbered (λ (m : Migration). m.version) 1 ms
  unfolding load_migrations
  load_migrations-Loads files ms h =
      let (found, e, h') = and_then-ok (read_files R files []) _ ms h in
      let (u, checked, h'') = and_then-ok (check_versions 1 found) (λ _. ok found) ms h' in
      let same : found ≡ ms = cc in
      subst (λ l. Loads files [] l × Numbered (λ (m : Migration). m.version) 1 l) same
        (read_files-Loads files [] found e, check_versions-Numbered 1 found checked)
