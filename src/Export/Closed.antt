-- ===== src/Export/Closed.antt =====
-- A closed connection in the driver's store, and that the functions of a database leave it closed. A
-- connection is closed when it has no client.
pub mod Methods
pub mod Connections
pub mod Statements
pub mod Runs
use adbc_driver_spark.Base.{
  ℕ, zero, suc, Bool, true, false, ◌≡◌, refl, sym, ap, subst, ◌∙◌, Option, none, some, List, [],
  ◌∷◌, ◌++◌, Result, ok, err, if◌then◌else◌, get_elem?,
}
use adbc_driver_spark.Base.Text.{Text, codes}
use adbc_driver_spark.Adbc.{Status, GoError, Go}
use adbc_driver_spark.Connect.Config.{insert}
use adbc_driver_spark.Spark.Database.{Database, Connection, new_database_with}
use adbc_driver_spark.Export.Errors.{AdbcError}
use adbc_driver_spark.Export.World.{
  Env, GoConnection, World, CDatabase, Pointer, Reply, answer_error, complain, poison, recovered,
  checked, success, no_output,
}
use adbc_driver_spark.Export.Databases.{
  make_database, database_new, database_init, initialized, database_release, database_set_option,
  unsupported_option, database_get_option, database_get_option_bytes, database_get_option_double,
  database_get_option_int, database_set_option_bytes, database_set_option_double,
  database_set_option_int,
}
use adbc_driver_spark.Export.Connections.{set_connection}
use adbc_driver_spark.Export.Databases.Phases.{OptionCall, DbCall, db_call, db_option_call}
use adbc_driver_spark.Export.Databases.Phases

-- There is a connection at the address, and it is closed.
abbrev pub ClosedAt : ℕ → List GoConnection → Type 0
ClosedAt a gs = (g : GoConnection) × (get_elem? gs a ≡ some g) × (g.conn.client ≡ none)

-- Changing a connection leaves the closed ones closed, if the change does.
pub set_connection-ClosedAt :
    (a : ℕ) (gs : List GoConnection) (b : ℕ) (c : Connection) {g : GoConnection}
    → get_elem? gs b ≡ some g
    → (g.conn.client ≡ none → c.client ≡ none)
    → ClosedAt a gs
    → ClosedAt a (set_connection gs b c)
set_connection-ClosedAt a [] b c at_b f t = cc
set_connection-ClosedAt zero (x ∷ xs) zero c {g} at_b f (h, at_a, gone) =
    let same : h ≡ g = cc in
    (record x { conn = c }, refl, f (ap (λ y. y.conn.client) (sym same) ∙ gone))
set_connection-ClosedAt zero (x ∷ xs) (suc b) c at_b f t = t
set_connection-ClosedAt (suc a) (x ∷ xs) zero c at_b f t = t
set_connection-ClosedAt (suc a) (x ∷ xs) (suc b) c at_b f t =
    set_connection-ClosedAt a xs b c at_b f t

pub append-ClosedAt :
    (a : ℕ) (gs more : List GoConnection) → ClosedAt a gs → ClosedAt a (gs ++ more)
append-ClosedAt a [] more t = cc
append-ClosedAt zero (x ∷ xs) more t = t
append-ClosedAt (suc a) (x ∷ xs) more t = append-ClosedAt a xs more t

module _ (a : ℕ) where
  -- The connection is closed after the call.
  abbrev pub Stays : {S : Type 0} → Reply S → Type 0
  Stays r = ClosedAt a r.world.connections

  -- The same of a body that may panic.
  abbrev pub MaybeStays : {S : Type 0} → Option (Reply S) → Type 0
  MaybeStays none = Unit
  MaybeStays (some r) = Stays r

  pub recovered-Stays :
      {S : Type 0} (env : Env) (p : Pointer S) (w : World) (e : Option AdbcError) (fname : Text)
      (o : Option (Reply S))
      → ClosedAt a w.connections
      → MaybeStays o
      → Stays (recovered env p w e fname o)
  unfolding poison
  recovered-Stays env p w e fname none t h = t
  recovered-Stays env p w e fname (some r) t h = h

  pub checked-Stays :
      {S A : Type 0} (p : Pointer S) (w : World) (found : Result (Option AdbcError) A)
      (body : A → Reply S)
      → ClosedAt a w.connections
      → ((x : A) → Stays (body x))
      → Stays (checked p w found body)
  unfolding checked
  checked-Stays p w (err e) body t f = t
  checked-Stays p w (ok x) body t f = f x

  -- A function that is refused at once in a driver that has panicked, and may panic otherwise.
  pub guarded-Stays :
      {S : Type 0} (env : Env) (p : Pointer S) (w : World) (e : Option AdbcError)
      (text fname : Text) (poisoned : Bool) (o : Option (Reply S))
      → ClosedAt a w.connections
      → MaybeStays o
      → Stays (
          if poisoned then complain env p w e text Status.internal else recovered env p w e fname o)
  unfolding complain
  guarded-Stays env p w e text fname true o t h = t
  guarded-Stays env p w e text fname false o t h = recovered-Stays env p w e fname o t h

  module _ (env : Env) (w : World) (e : Option AdbcError) (t : ClosedAt a w.connections) where
    make_database-Stays : (p : Pointer CDatabase) → MaybeStays (make_database env w e p)
    unfolding complain
    make_database-Stays none = tt
    make_database-Stays (some (some cdb)) = t
    make_database-Stays (some none) = t

    initialized-Stays :
        (p : Pointer CDatabase) (cdb : CDatabase) (o : Go Database)
        → Stays (initialized env w e p cdb o)
    unfolding answer_error
    initialized-Stays p cdb (err g) = t
    initialized-Stays p cdb (ok d) = t

    init-Stays :
        (p : Pointer CDatabase) (cdb : CDatabase) (o : Option Database)
        → Stays (elim o [
          | some _ ↦
              complain env p w e
                (codes "AdbcDatabaseInit: database already initialized")
                Status.invalid_state
          | none ↦ initialized env w e p cdb (new_database_with env.unicode (env.visit cdb.opts))
        ])
    unfolding complain
    init-Stays p cdb (some d) = t
    init-Stays p cdb none = initialized-Stays p cdb _

    unsupported_option-Stays :
        (p : Pointer CDatabase) (fname : Text) → Stays (unsupported_option env w e p fname)
    unfolding complain
    unsupported_option-Stays p fname = checked-Stays p w _ _ t (λ x. t)

    db_option-Stays : (p : Pointer CDatabase) (o : OptionCall) → Stays (db_option_call env w e p o)
    unfolding database_get_option database_get_option_bytes database_get_option_double
        database_get_option_int database_set_option_bytes database_set_option_double
        database_set_option_int
    db_option-Stays p Phases.get_option = unsupported_option-Stays p _
    db_option-Stays p Phases.get_option_bytes = unsupported_option-Stays p _
    db_option-Stays p Phases.get_option_double = unsupported_option-Stays p _
    db_option-Stays p Phases.get_option_int = unsupported_option-Stays p _
    db_option-Stays p Phases.set_option_bytes = unsupported_option-Stays p _
    db_option-Stays p Phases.set_option_double = unsupported_option-Stays p _
    db_option-Stays p Phases.set_option_int = unsupported_option-Stays p _

    set_option-Stays :
        (p : Pointer CDatabase) (k v : Text) → Stays (database_set_option env w e p k v)
    unfolding database_set_option complain
    set_option-Stays p k v = checked-Stays p w _ _ t (λ cdb. by_db cdb cdb.db)
      where
        by_db :
            (cdb : CDatabase) (o : Option Database)
            → Stays (elim o [
              | some _ ↦
                  complain env p w e
                    (codes "AdbcDatabaseSetOption: options are not supported")
                    Status.not_implemented
              | none ↦
                  success (some (some (record cdb { opts = insert k v cdb.opts }))) w e no_output
            ])
        by_db cdb (some d) = t
        by_db cdb none = t

    pub db_call-Stays : (p : Pointer CDatabase) (c : DbCall) → Stays (db_call env w e p c)
    unfolding database_new database_init database_release
    db_call-Stays p Phases.call_new =
        guarded-Stays env p w e _ _ w.poisoned _ t (make_database-Stays p)
    db_call-Stays p Phases.call_init = checked-Stays p w _ _ t (λ cdb. init-Stays p cdb cdb.db)
    db_call-Stays p Phases.call_release = checked-Stays p w _ _ t (λ x. t)
    db_call-Stays p (Phases.call_set_option k v) = set_option-Stays p k v
    db_call-Stays p (Phases.call_option o) = db_option-Stays p o
