-- ===== src/Store.antt =====
-- internal/store: the tables of migrations/001_init.sql and 002_jobs.sql, and the statements of
-- postgres.go as functions of them. A table is the list of its rows, the newest last.
pub mod Insert
pub mod Select
pub mod Update
pub mod Consistency
pub mod Methods
pub mod Migrate
pub mod Open
use tark.Common.{String, Option, List, [], Error}
use tark.Models.{Uuid, Organization, Cluster, Deployment, Job}

pub record Database : Type 0 where
  pub organizations : List Organization
  pub clusters : List Cluster
  pub deployments : List Deployment
  pub jobs : List Job

abbrev pub empty : Database
empty = record { organizations = []; clusters = []; deployments = []; jobs = [] }

-- What PostgreSQL refuses an INSERT for.
pub data Violation : Type 0 where
  duplicate_key missing_reference invalid_text : Violation

-- The server's own functions: the text form of a uuid, how it reads one, how it stores a jsonb
-- text, and the text of an error.
pub record Postgres : Type 0 where
  pub show_uuid : Uuid → String
  pub read_uuid : String → Option Uuid
  pub read_jsonb : String → Option String
  pub violation : Violation → Error
