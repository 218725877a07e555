-- ===== src/Tests/Cli.antt =====
-- Runs of the program.
use kibertas.Prelude.{◌≡◌}
use kibertas.Cli.{datadog_agent, default_flags, initial_log_level, main}
use kibertas.Cli.Outcomes.{run_through, main_lem}
use kibertas.Tests.World.{calm, start}

-- The keys of Datadog are missing.
main_lem_example :
    main datadog_agent default_flags calm start
    ≡ run_through datadog_agent default_flags calm start (calm.parse_level initial_log_level)
main_lem_example = main_lem datadog_agent default_flags calm start
