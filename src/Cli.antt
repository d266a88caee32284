-- ===== src/Cli.antt =====
-- crates/cli/src/{lib,command}.rs: which runner a command of the binary gets, and how the node command
-- opens the database and launches the node. reth's runner, commands and launcher are the parameter `Host`.
use kx_reth.Prelude.{
  ℕ, ◌≡◌, Bool, true, false, Option, none, some, List, arith, if◌then◌else◌, Result, ok, err,
  Result-cases, ◌⊎◌, inl, inr,
}

-- `CliRunner`'s three ways to run a command
pub data Runner : Type 0 where
  command_until_exit blocking_until_ctrl_c until_ctrl_c : Runner

-- reth's `Commands`, but for the node
pub data OtherCommand : Type 0 where
  init init_state import import_era export_era dump_genesis db download : OtherCommand
  stage p2p config prune re_execute : OtherCommand

-- the runner of a command, and whether it is given the EVM configuration and the consensus
unfoldable pub runner_of : OtherCommand → Runner × Bool
runner_of init = (blocking_until_ctrl_c, false)
runner_of init_state = (blocking_until_ctrl_c, false)
runner_of import = (blocking_until_ctrl_c, true)
runner_of import_era = (blocking_until_ctrl_c, false)
runner_of export_era = (blocking_until_ctrl_c, false)
runner_of dump_genesis = (blocking_until_ctrl_c, false)
runner_of db = (command_until_exit, false)
runner_of download = (blocking_until_ctrl_c, false)
runner_of stage = (command_until_exit, true)
runner_of p2p = (until_ctrl_c, false)
runner_of config = (until_ctrl_c, false)
runner_of prune = (until_ctrl_c, false)
runner_of re_execute = (until_ctrl_c, true)

pub record Host : Type 1 where
  -- what a command can change, and what it needs
  pub World : Type 0
  pub NodeConfig : Type 0
  pub Ext : Type 0
  pub Database : Type 0
  pub Error : Type 0
  -- the path of the database in the data directory, and the arguments of the database
  pub db_path : NodeConfig → List ℕ
  pub database_args : NodeConfig → ℕ
  pub init_db_for : List ℕ → ℕ → World → Result Error Database × World
  pub with_unused_ports : NodeConfig → NodeConfig
  pub entrypoint : NodeConfig → Database → Ext → World → Result Error (Unit {0}) × World
  -- `Path::join`, and the tracing of a log directory
  pub join : List ℕ → List ℕ → List ℕ
  pub init_tracing : List ℕ → World → Result Error (Unit {0}) × World
  pub execute_other : OtherCommand → Runner → Bool → World → Result Error (Unit {0}) × World

module _ (host : Host) where
  open host use {
    World, NodeConfig, Ext, Database, Error, db_path, database_args, init_db_for, entrypoint, join,
    init_tracing, execute_other,
  }

  -- `KasplexNodeCommand`: the fields that become the configuration, and the other two
  pub record NodeCommand : Type 0 where
    pub node_config : NodeConfig
    pub with_unused_ports : Bool
    pub ext : Ext

  pub data Command : Type 0 where
    node : NodeCommand → Command
    other : OtherCommand → Command

  -- `KasplexCli`: the directory of the logs, the command, and the name of the chain that it names
  pub record KasplexCli : Type 0 where
    pub log_file_directory : List ℕ
    pub command : Command
    pub chain : Option (List ℕ)

  -- `execute`
  unfoldable pub execute : NodeCommand → World → Result Error (Unit {0}) × World
  execute command world =
      let config = command.node_config in
      let (opened, world') = init_db_for (db_path config) (database_args config) world in
      elim opened [
        | err e ↦ (err e, world')
        | ok database ↦
            let final_config =
              if command.with_unused_ports then host.with_unused_ports config else config in
            entrypoint final_config database command.ext world'
      ]

  -- the `match` on the command
  unfoldable pub dispatch : Command → World → Result Error (Unit {0}) × World
  unfolding execute
  dispatch (node command) world = execute command world
  dispatch (other command) world =
      let (runner, with_components) = runner_of command in
      execute_other command runner with_components world

  -- the directory of the logs, with the chain's name if there is one
  unfoldable pub log_directory : KasplexCli → List ℕ
  log_directory cli = elim cli.chain [
    | none ↦ cli.log_file_directory
    | some name ↦ join cli.log_file_directory name
  ]

  -- `with_runner_and_components`
  unfoldable pub with_runner_and_components : KasplexCli → World → Result Error (Unit {0}) × World
  with_runner_and_components cli world =
      let (traced, world') = init_tracing (log_directory cli) world in
      elim traced [ err e ↦ (err e, world') | ok _ ↦ dispatch cli.command world' ]

  -- The node command stops at the first of three failures, and returns it: the tracing's, the
  -- database's, the launcher's. If the first two do not fail, the node is launched with the database of
  -- the configuration as it was given, and with unused ports exactly when they are asked for.
  pub node_command_is_launched :
      (cli : KasplexCli) (command : NodeCommand) (world : World)
      → cli.command ≡ node command
      → let traced = init_tracing (log_directory cli) world in
        let opened =
          init_db_for (db_path command.node_config) (database_args command.node_config) traced.1 in
        let out = with_runner_and_components cli world in
        ((e : Error) × (traced.0 ≡ err e) × (out ≡ (err e, traced.1)))
        ⊎ (((e : Error) × (opened.0 ≡ err e) × (out ≡ (err e, opened.1)))
            ⊎ ((database : Database) × (opened.0 ≡ ok database)
                × (out
                    ≡ entrypoint
                        (if command.with_unused_ports
                          then host.with_unused_ports command.node_config
                          else command.node_config)
                        database
                        command.ext
                        opened.1)))
  unfolding with_runner_and_components dispatch execute
  node_command_is_launched cli command world is_node =
      let traced = init_tracing (log_directory cli) world in
      let opened =
        init_db_for (db_path command.node_config) (database_args command.node_config) traced.1 in
      elim (Result-cases traced.0) [
        | inr (e, q) ↦ inl (e, q, ground (arith, q))
        | inl (u, q) ↦ elim (Result-cases opened.0) [
          | inr (e, r) ↦ inr (inl (e, r, ground (arith, q, r, is_node)))
          | inl (database, r) ↦ inr (inr (database, r, ground (arith, q, r, is_node)))
        ]
      ]
