-- ===== src/Export/Closed/Connections.antt =====
-- The functions of a connection leave closed connections closed.
use adbc_driver_spark.Base.{
  ℕ, Bool, true, false, ◌≡◌, refl, Option, none, some, ok, err, get_elem?, is_nil, length,
}
use adbc_driver_spark.Base.Text.{Text, codes}
use adbc_driver_spark.Adbc.{Status, Go}
use adbc_driver_spark.Connect.Config.{Config, insert}
use adbc_driver_spark.Spark.Connection.{
  close_client-client, close_connection, commit, rollback, read_partition,
}
use adbc_driver_spark.Spark.Database.{Database, Connection, open_connection}
use adbc_driver_spark.Spark.Listing.{get_table_types}
use adbc_driver_spark.Export.Errors.{AdbcError}
use adbc_driver_spark.Export.World.{
  Env, GoConnection, World, CDatabase, CConn, Pointer, names_stream, answer_error, complain,
  success, no_output, recovered, checked, cancel_context, check_db_init,
}
use adbc_driver_spark.Export.Connections.{
  make_conn, connection_new, connection_set_option, opened_conn, config_of, open_on,
  connection_init, close_go, close_cnxn, connection_release, connection_cancel,
}
use adbc_driver_spark.Export.Connections.Options.{
  unsupported_call, connection_get_option, connection_get_option_bytes,
  connection_get_option_double, connection_get_option_int, connection_set_option_bytes,
  connection_set_option_double, connection_set_option_int, connection_get_statistics,
  connection_get_statistic_names,
}
use adbc_driver_spark.Export.Connections.Calls.{
  output_of, error_result, connection_get_info, connection_get_objects, connection_get_table_schema,
  connection_get_table_types, connection_read_partition, connection_commit, connection_rollback,
}
use adbc_driver_spark.Export.Databases.Phases.{OptionCall}
use adbc_driver_spark.Export.Databases.Phases
use adbc_driver_spark.Export.Poisoned.{ConnCall, conn_call, conn_option_call}
use adbc_driver_spark.Export.Poisoned
use adbc_driver_spark.Export.Closed.{
  ClosedAt, Stays, MaybeStays, set_connection-ClosedAt, append-ClosedAt, recovered-Stays,
  checked-Stays, guarded-Stays,
}
use adbc_driver_spark.Export.Closed.Methods.{
  connection_call-Stays, looking-Stays, info_method, info_method-IsCalm, objects_method,
  objects_method-IsCalm, schema_method, schema_method-IsCalm,
}

module _ (a : ℕ) (env : Env) (e : Option AdbcError) where
  module _ (w : World) (t : ClosedAt a w.connections) where
    make_conn-Stays : (p : Pointer CConn) → MaybeStays a (make_conn env w e p)
    unfolding complain
    make_conn-Stays none = tt
    make_conn-Stays (some (some conn)) = t
    make_conn-Stays (some none) = t

    unsupported_call-Stays :
        (p : Pointer CConn) (fname why : Text) → Stays a (unsupported_call env w e p fname why)
    unfolding complain
    unsupported_call-Stays p fname why = checked-Stays a p w _ _ t (λ x. t)

    option-Stays : (p : Pointer CConn) (o : OptionCall) → Stays a (conn_option_call env w e p o)
    unfolding connection_get_option connection_get_option_bytes connection_get_option_double
        connection_get_option_int connection_set_option_bytes connection_set_option_double
        connection_set_option_int
    option-Stays p Phases.get_option = unsupported_call-Stays p _ _
    option-Stays p Phases.get_option_bytes = unsupported_call-Stays p _ _
    option-Stays p Phases.get_option_double = unsupported_call-Stays p _ _
    option-Stays p Phases.get_option_int = unsupported_call-Stays p _ _
    option-Stays p Phases.set_option_bytes = unsupported_call-Stays p _ _
    option-Stays p Phases.set_option_double = unsupported_call-Stays p _ _
    option-Stays p Phases.set_option_int = unsupported_call-Stays p _ _

    set_option-Stays :
        (p : Pointer CConn) (k v : Text) → Stays a (connection_set_option env w e p k v)
    unfolding connection_set_option complain
    set_option-Stays p k v = checked-Stays a p w _ _ t (λ conn. by_cnxn conn conn.cnxn)
      where
        by_cnxn :
            (conn : CConn) (o : Option ℕ)
            → Stays a (elim o [
              | some _ ↦
                  complain env p w e
                    (codes "AdbcConnectionSetOption: not supported post-init")
                    Status.not_implemented
              | none ↦
                  success
                    (some (some (record conn { init_args = insert k v conn.init_args })))
                    w
                    e
                    no_output
            ])
        by_cnxn conn (some _) = t
        by_cnxn conn none = t

    opened_conn-Stays :
        (conn : CConn) (c : Connection) (cfg : Config) (no_args : Bool)
        → is_nil conn.init_args ≡ no_args
        → Stays a (opened_conn env w e conn c cfg)
    unfolding complain
    opened_conn-Stays conn c cfg true h = rw h (append-ClosedAt a w.connections _ t)
    opened_conn-Stays conn c cfg false h = rw h (append-ClosedAt a w.connections _ t)

    open_on-Stays :
        (p : Pointer CConn) (conn : CConn) (d : Database) (o : Go Connection)
        → MaybeStays a (open_on env w e p conn d o)
    unfolding answer_error
    open_on-Stays p conn d (err g) = t
    open_on-Stays p conn d (ok c) = by_config (config_of d c)
      where
        by_config :
            (o : Option Config)
            → MaybeStays a
                (elim o [ none ↦ none | some cfg ↦ some (opened_conn env w e conn c cfg) ])
        by_config none = tt
        by_config (some cfg) = opened_conn-Stays conn c cfg _ refl

    opening-Stays :
        (p : Pointer CConn) (db : Pointer CDatabase) (conn : CConn)
        → Stays a (
            checked p w (check_db_init env w e db (codes "AdbcConnectionInit")) (λ d.
              recovered env p w e (codes "AdbcConnectionInit") (
                open_on env w e p conn d
                  (open_connection env.dial_error (env.uuid (length w.connections)) d))))
    opening-Stays p db conn = checked-Stays a p w _ _ t (λ (d : Database).
        let opened = open_connection env.dial_error (env.uuid (length w.connections)) d in
        recovered-Stays a env p w e (codes "AdbcConnectionInit") (open_on env w e p conn d opened) t
          (open_on-Stays p conn d opened))

    init-Stays :
        (p : Pointer CConn) (db : Pointer CDatabase) → Stays a (connection_init env w e p db)
    unfolding connection_init complain
    init-Stays p db = checked-Stays a p w _ _ t (λ conn. by_cnxn conn conn.cnxn)
      where
        by_cnxn :
            (conn : CConn) (o : Option ℕ)
            → Stays a (elim o [
              | some _ ↦
                  complain env p w e
                    (codes "AdbcConnectionInit: connection already initialized")
                    Status.invalid_state
              | none ↦ checked p w (check_db_init env w e db (codes "AdbcConnectionInit")) (λ d.
                  recovered env p w e (codes "AdbcConnectionInit") (
                    open_on env w e p conn d
                      (open_connection env.dial_error (env.uuid (length w.connections)) d)))
            ])
        by_cnxn conn (some _) = t
        by_cnxn conn none = opening-Stays p db conn

    close_go-ClosedAt :
        (b : ℕ) (o : Option GoConnection)
        → get_elem? w.connections b ≡ o
        → ClosedAt a (close_go env w o b).0.connections
    unfolding close_connection
    close_go-ClosedAt b none h = t
    close_go-ClosedAt b (some g) h =
        set_connection-ClosedAt a w.connections b _ h
          (λ gone. close_client-client env.service g.config g.conn g.conn.client refl) t

    close_cnxn-ClosedAt : (o : Option ℕ) → ClosedAt a (close_cnxn env w o).0.connections
    close_cnxn-ClosedAt none = t
    close_cnxn-ClosedAt (some b) = close_go-ClosedAt b _ refl

    release-Stays : (p : Pointer CConn) → Stays a (connection_release env w e p)
    unfolding connection_release answer_error cancel_context
    release-Stays p = checked-Stays a p w _ _ t (λ (conn : CConn). close_cnxn-ClosedAt conn.cnxn)

    cancel-Stays : (p : Pointer CConn) → Stays a (connection_cancel env w e p)
    unfolding connection_cancel cancel_context
    cancel-Stays p = checked-Stays a p w _ _ t (λ x. t)

  pub conn_call-Stays :
      (w : World) (p : Pointer CConn) (c : ConnCall)
      → ClosedAt a w.connections
      → Stays a (conn_call env w e p c)
  unfolding connection_new connection_get_statistics connection_get_statistic_names
      connection_get_info connection_get_objects connection_get_table_schema
      connection_get_table_types connection_read_partition connection_commit connection_rollback
  conn_call-Stays w p Poisoned.conn_new t =
      guarded-Stays a env p w e _ _ w.poisoned _ t (make_conn-Stays w t p)
  conn_call-Stays w p Poisoned.conn_release t = release-Stays w t p
  conn_call-Stays w p Poisoned.conn_cancel t = cancel-Stays w t p
  conn_call-Stays w p Poisoned.conn_get_statistics t = unsupported_call-Stays w t p _ _
  conn_call-Stays w p Poisoned.conn_get_statistic_names t = unsupported_call-Stays w t p _ _
  conn_call-Stays w p Poisoned.conn_commit t =
      looking-Stays a env e w p _ true (λ c. error_result commit) t
  conn_call-Stays w p Poisoned.conn_rollback t =
      looking-Stays a env e w p _ true (λ c. error_result rollback) t
  conn_call-Stays w p (Poisoned.conn_set k v) t = set_option-Stays w t p k v
  conn_call-Stays w p (Poisoned.conn_init db) t = init-Stays w t p db
  conn_call-Stays w p (Poisoned.conn_option o) t = option-Stays w t p o
  conn_call-Stays w p (Poisoned.conn_get_info l out) t =
      connection_call-Stays a env e w p _ out (info_method a env e l) (info_method-IsCalm a env e l)
        t
  conn_call-Stays w p (Poisoned.conn_get_objects d c s tn ty n out) t =
      connection_call-Stays a env e w p _ out (objects_method a env e d c s tn n ty)
        (objects_method-IsCalm a env e d c s tn n ty) t
  conn_call-Stays w p (Poisoned.conn_get_table_schema c s tn out) t =
      connection_call-Stays a env e w p _ out (schema_method a env e c s tn)
        (schema_method-IsCalm a env e c s tn) t
  conn_call-Stays w p (Poisoned.conn_get_table_types out) t =
      looking-Stays a env e w p _ out (λ c. output_of names_stream (get_table_types c)) t
  conn_call-Stays w p (Poisoned.conn_read_partition out) t =
      looking-Stays a env e w p _ out (λ c. error_result read_partition) t
