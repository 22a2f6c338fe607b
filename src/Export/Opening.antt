-- ===== src/Export/Opening.antt =====
-- The opening of a connection through the C interface.
use adbc_driver_spark.Base.{
  ℕ, zero, suc, ◌<◌, false, ◌≡◌, refl, sym, ap, subst, Option, none, some, List, [], ◌∷◌, ◌++◌, ok,
  arith, is_nil, length, get_elem?, if◌then◌else◌,
}
use adbc_driver_spark.Adbc.{Status}
use adbc_driver_spark.Connect.Config.{Config, Headers}
use adbc_driver_spark.Spark.Database.{Database, Connection, open_connection}
use adbc_driver_spark.Export.Errors.{AdbcError}
use adbc_driver_spark.Export.World.{
  Env, GoConnection, World, CDatabase, CConn, Pointer, Reply, complain, recovered, checked,
  check_conn_alloc, check_db_alloc, check_db_init,
}
use adbc_driver_spark.Export.Connections.{connection_init, open_on, opened_conn, config_of}

get_elem-end :
    (gs : List GoConnection) (g : GoConnection) → get_elem? (gs ++ g ∷ []) (length gs) ≡ some g
get_elem-end [] g = refl
get_elem-end (x ∷ xs) g = get_elem-end xs g

get_elem-append :
    (gs : List GoConnection) (g : GoConnection) (a : ℕ)
    → a < length gs
    → get_elem? (gs ++ g ∷ []) a ≡ get_elem? gs a
get_elem-append [] g a h = absurd (omega arith)
get_elem-append (x ∷ xs) g zero h = refl
get_elem-append (x ∷ xs) g (suc a) h = get_elem-append xs g a (omega arith)

-- The struct and the Go connection that an Init leaves.
pub record IsOpen (w : World) (g : GoConnection) (args : Headers) (r : Reply CConn) : Type 0 where
  pub struct' :
      r.struct
      ≡ some
          (some (record { context = none; cnxn = some (length w.connections); init_args = args }))
  pub present : get_elem? r.world.connections (length w.connections) ≡ some g
  pub others :
      (a : ℕ)
      → a < length w.connections
      → get_elem? r.world.connections a ≡ get_elem? w.connections a
  pub code : r.code ≡ (if is_nil args then Status.ok else Status.not_implemented)

module _ (env : Env) (w : World) (e : Option AdbcError) (args opts : Headers) (d : Database)
    (c : Connection) (cfg : Config) where
  abbrev before : CConn
  before = record { context = none; cnxn = none; init_args = args }

  abbrev calm : World
  calm = record w { poisoned = false }

  opened_conn-IsOpen :
      (keys : Headers)
      → IsOpen calm
          (record { conn = c; config = cfg })
          keys
          (opened_conn env calm e (record before { init_args = keys }) c cfg)
  unfolding complain
  opened_conn-IsOpen [] = record {
    struct' = refl;
    present = get_elem-end w.connections _;
    others = get_elem-append w.connections _;
    code = refl;
  }
  opened_conn-IsOpen (k ∷ ks) = record {
    struct' = refl;
    present = get_elem-end w.connections _;
    others = get_elem-append w.connections _;
    code = refl;
  }

  init-IsOpen :
      open_connection env.dial_error (env.uuid (length w.connections)) d ≡ ok c
      → config_of d c ≡ some cfg
      → IsOpen calm
          (record { conn = c; config = cfg })
          args
          (connection_init env calm e
            (some (some before))
            (some (some (record { opts = opts; db = some d }))))
  unfolding connection_init check_conn_alloc check_db_init check_db_alloc checked
  init-IsOpen opens cfg_at = rw opens (rw (cfg_at, recovered, open_on) (opened_conn-IsOpen args))

-- `SparkConnectionInit` of an allocated connection on an initialized database whose `Open` succeeds, in
-- a driver that has not panicked, opens a new Go connection at a fresh address, with the configuration
-- of the database, and leaves every other connection alone. Its status is ADBC_STATUS_OK if no option
-- was set before, and otherwise ADBC_STATUS_NOT_IMPLEMENTED, although the connection is then open all
-- the same.
pub connection_init-IsOpen :
    (env : Env) (w : World) (e : Option AdbcError) (args opts : Headers) (d : Database)
    (c : Connection) (cfg : Config)
    → w.poisoned ≡ false
    → open_connection env.dial_error (env.uuid (length w.connections)) d ≡ ok c
    → config_of d c ≡ some cfg
    → let cnxn : Pointer CConn =
        some (some (record { context = none; cnxn = none; init_args = args })) in
      let db : Pointer CDatabase = some (some (record { opts = opts; db = some d })) in
      IsOpen w (record { conn = c; config = cfg }) args (connection_init env w e cnxn db)
connection_init-IsOpen env w e args opts d c cfg calm' opens cfg_at =
    subst
      (λ v.
        IsOpen v (record { conn = c; config = cfg }) args
          (connection_init env v e (some (some (before env w e args opts d c cfg)))
            (some (some (record { opts = opts; db = some d })))))
      (ap (λ b. record w { poisoned = b }) (sym calm'))
      (init-IsOpen env w e args opts d c cfg opens cfg_at)
