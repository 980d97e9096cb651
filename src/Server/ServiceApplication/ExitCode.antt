-- ===== src/Server/ServiceApplication/ExitCode.antt =====
-- The exit code of the server.
use console_calculator.Prelude.{◌≡◌, refl, sym, ◌∙◌, ◌↔◌, List}
use console_calculator.Prelude.Int.{ℤ, pos}
use console_calculator.Text.{Text}
use console_calculator.Support.{Result, returned, thrown, undefined}
use console_calculator.Support.Exec.{chain}
use console_calculator.Server.CommandLine.{config_path_from_args}
use console_calculator.Server.ServerConfig.{ServerConfig, Files, Environment}
use console_calculator.Server.ServerConfig.Load.{from_environment_and_file}
use console_calculator.Server.ServiceApplication.{Surroundings, Meets, run, caught, main}
use console_calculator.Server.ServiceApplication.Ends.{before, first_failure, run-Ends}

caught-returned_0 : (r : Result ℤ) → (caught r ≡ returned (pos 0)) ↔ (r ≡ returned (pos 0))
unfolding caught
caught-returned_0 (thrown e) = (λ h. absurd (cc h), λ h. absurd (cc h))
caught-returned_0 (returned z) = (λ h. h, λ h. h)
caught-returned_0 undefined = (λ h. h, λ h. h)

chain-returned :
    {A : Type 0} (r : Result A) (f : A → Result ℤ) (z : ℤ)
    → (chain r f ≡ returned z) ↔ ((a : A) × (r ≡ returned a) × (f a ≡ returned z))
chain-returned (returned a) f z = (λ h. (a, refl, h), λ (b, e, h). cc)
chain-returned (thrown x) f z = (λ h. absurd (cc h), λ (b, e, h). absurd (cc e))
chain-returned undefined f z = (λ h. absurd (cc h), λ (b, e, h). absurd (cc e))

module _ (X : Surroundings) (met : Meets) (files : Files) (environment : Environment)
    (arguments : List Text) (w : X.spdlog.World) (n : X.Network) where
  -- The configuration is loaded, and every start returns.
  abbrev pub StartsUp : Type 0
  StartsUp =
      (config : ServerConfig) × (from_environment_and_file files environment
          (config_path_from_args arguments)
        ≡ returned config)
      × (first_failure X met config w n ≡ returned (pos 0))

  -- The server exits with 0 exactly if its configuration is loaded and the logger, the signal handler, the
  -- storage worker and the TCP server start.
  pub main-StartsUp :
      (main X met files environment arguments (before X w n) ≡ returned (pos 0)) ↔ StartsUp
  unfolding main
  main-StartsUp =
      let load = from_environment_and_file files environment (config_path_from_args arguments) in
      let run_of : ServerConfig → Result ℤ = λ config. (run X met config (before X w n)).0 in
      let (uncaught, caught_back) = caught-returned_0 (chain load run_of) in
      let (split, join) = chain-returned load run_of (pos 0) in
      (
        λ h.
            let (config, loaded, ran) = split (uncaught h) in
            (config, loaded, sym (run-Ends X met config w n).0 ∙ ran),
        λ (config, loaded, starts).
            caught_back (join (config, loaded, (run-Ends X met config w n).0 ∙ starts)),
      )
