-- ===== src/Store/Open.antt =====
-- NewPostgresStore of internal/store/postgres.go.
use tark.Common.{Option, Error, ok, err, wrap}
use tark.Store.Migrate.{Host, Schema, Outcome, called, run_embedded_migrations}

-- The errors of pgxpool.ParseConfig, pgxpool.NewWithConfig and Ping, nil where there is none.
pub record Connection : Type 0 where
  pub parse_config : Option Error
  pub new_pool : Option Error
  pub ping : Option Error

unfoldable pub after_migrations : Outcome → Outcome
after_migrations (ok done, s) = (ok tt, s)
after_migrations (err x, s) = (wrap "run migrations" x, s)

unfoldable pub new_postgres_store : Connection → Host → Schema → Outcome
unfolding called after_migrations
new_postgres_store c h s =
    called c.parse_config (λ x. (wrap "unable to parse database config" x, s))
      (called c.new_pool (λ x. (wrap "unable to create connection pool" x, s))
        (called c.ping (λ x. (wrap "unable to ping database" x, s))
          (after_migrations (run_embedded_migrations h s))))
