-- ===== src/Tests/Boot.antt =====
-- The program without a configuration file, with a database host that is not set, no Redis and no
-- RabbitMQ to be reached.
use dgou_framework.Base.{
  ℕ, ◌≡◌, ◌↔◌, refl, ◌∙◌, ap, subst, sym, true, false, Option, none, some, [], ◌∷◌, Str, codes,
  str_eq, inl, inr, arith, str_eq_refl,
}
use dgou_framework.Base.Int.{pos, ◌<ℤ◌}
use dgou_framework.Config.Defaults.{
  default_config, default_workers, default_storage, default_driver, find_setting,
}
use dgou_framework.Config.Decode.{decode}
use dgou_framework.Config.Load.{
  ViperLib, ReadOutcome, read_failed, config_file_not_found, IsBare, IsUsable, IsPrepared, Viper,
  content, load, load_defaults, load_iff,
}
use dgou_framework.Async.Pool.{submit_call, dispatch_takes, new_pool, start, stop, quit_twice}
use dgou_framework.Queue.Rabbit.Connect.{new_rabbit_mq, connect, fresh_queue}
use dgou_framework.Upload.Validator.{FileHeader, ValidationError}
use dgou_framework.Upload.Manager.{local, Fresh, upload, refused}
use dgou_framework.App.Instance.{local_storage, Process, nil_interface, shutdown, run}
use dgou_framework.Bootstrap.Settings.{local_config, upload_config, rabbit_config}
use dgou_framework.Bootstrap.{Outside, AppResult, started, init, init_storage, assemble, closer}
use dgou_framework.Bootstrap.Exit.{main_exit, main_exit_panics}
use dgou_framework.Bootstrap.Origin.{init_starts, assemble-app}
use dgou_framework.Bootstrap.NilQueue.{closer_nil_queue}
use dgou_framework.Bootstrap.Defaults.{default_upload_refused, assemble-manager}
use dgou_framework.Tests.Support.Pool.{scan}

abbrev read_nothing : Option Str → ReadOutcome ℕ
read_nothing none = config_file_not_found
read_nothing (some path) = read_failed

abbrev viper : ViperLib ℕ
viper = record {
  read_in_config = λ v. read_nothing v.config_file;
  unmarshal = λ v file. some (decode (find_setting v.defaults));
}

viper-IsBare : IsBare viper
viper-IsBare = (λ v h. ap read_nothing h, λ v h. refl)

abbrev outside : Outside ℕ ℕ
outside = record {
  viper = viper;
  open_db = λ dsn pool performance log. none;
  redis_ping = λ cfg. false;
  make_dir = λ path. true;
  oss_client = λ cfg. false;
  amqp = record { dial = λ url heartbeat timeout. false; open_channel = false };
  ask = λ c. none;
  heap = scan;
}

storage_made :
    init_storage outside default_config ≡ some (local_storage (local_config default_config))
unfolding init_storage str_eq
storage_made = rw default_storage refl

abbrev app_result : AppResult ℕ
app_result =
    assemble outside default_config
      (start scan (new_pool 100 default_config.async.max_queue_size)).0
      (local_storage (local_config default_config))

init-started : init outside [] ≡ started app_result
init-started =
    init_starts outside default_config [] 100 (local_storage (local_config default_config))
      (load_defaults viper viper-IsBare) default_workers storage_made

own_config : app_result.app.cfg ≡ default_config
own_config =
    (assemble-app outside default_config
      (start scan (new_pool 100 default_config.async.max_queue_size)).0
      (local_storage (local_config default_config))).1

some_worker : pos 0 <ℤ app_result.app.cfg.async.max_workers
some_worker =
    let w = ap (λ c. c.async.max_workers) own_config ∙ default_workers in
    subst (λ z. pos 0 <ℤ z) (sym w) (omega arith)

main_exit_panics_example :
    (main_exit scan app_result
      (submit_call (record { number = 1; priority = pos 5 }) ∷ dispatch_takes ∷ [])).panicked
    ≡ true
main_exit_panics_example = main_exit_panics outside [] app_result _ init-started some_worker

load_iff_example :
    (v : Viper) × IsPrepared [] v
    × ((load viper [] ≡ inr default_config) ↔ (
        (file : Option ℕ) × (content (viper.read_in_config v) ≡ some file)
        × (viper.unmarshal v file ≡ some default_config)
        × IsUsable default_config))
load_iff_example = load_iff viper [] default_config

abbrev photo : FileHeader
photo = record { filename = codes "a.jpg"; size = pos 100; content_type = codes "image/jpeg" }

abbrev fresh : Fresh
fresh = record { uuid = codes "u1"; path_uuid = codes "u2"; day = codes "2024/01/02"; now = pos 7 }

default_upload_refused_example :
    (e : ValidationError) × (upload {Metadata = ℕ} local
        (λ info. some info)
        (upload_config default_config)
        fresh
        photo
        []
      ≡ inl (refused e))
default_upload_refused_example =
    default_upload_refused outside app_result (local_storage (local_config default_config))
      (upload_config default_config) local (λ info. some info) fresh photo [] viper-IsBare
      init-started
      (assemble-manager outside default_config
        (start scan (new_pool 100 default_config.async.max_queue_size)).0
        (local_storage (local_config default_config)))

abbrev process : Process
process = record { pool = new_pool 1 (pos 5); queue = none; effects = []; panicked = false }

can_stop : (stop process.pool).crashed ≡ false
unfolding stop new_pool quit_twice
can_stop = refl

uses_rabbit : str_eq app_result.app.cfg.queue.driver (codes "rabbitmq") ≡ true
uses_rabbit =
    let d = ap (λ c. c.queue.driver) own_config ∙ default_driver in
    subst (λ s. str_eq s (codes "rabbitmq") ≡ true) (sym d) (str_eq_refl (codes "rabbitmq"))

no_rabbit : new_rabbit_mq outside.amqp (rabbit_config app_result.app.cfg) ≡ none
unfolding new_rabbit_mq connect fresh_queue
no_rabbit = refl

closer_nil_queue_example :
    (app_result.app.queue ≡ nil_interface)
    × ((shutdown (run app_result.app) process).panicked ≡ false)
    × ((closer app_result process).panicked ≡ true)
closer_nil_queue_example =
    closer_nil_queue outside [] app_result process init-started uses_rabbit no_rabbit refl can_stop
