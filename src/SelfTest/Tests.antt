-- ===== src/SelfTest/Tests.antt =====
-- The theorem on `signal_test` at a concrete task table.
use hekaos_series.Base.{◌≡◌, some}
use hekaos_series.Samples.{family}
use hekaos_series.Tasks.Others.{SameBut}
use hekaos_series.Tasks.{Kernel}
use hekaos_series.SelfTest.{signal_test}
use hekaos_series.SelfTest.Passes.{local_task, count_handler, order_handler, signal_test-SameBut}

signal_test-SameBut_example :
    (k' : Kernel) × (signal_test count_handler order_handler local_task family ≡ some k')
    × SameBut local_task family k'
signal_test-SameBut_example = signal_test-SameBut family
