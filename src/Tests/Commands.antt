-- ===== src/Tests/Commands.antt =====
-- A command in memory at a concrete input.
use dos_kernel.Common.{ℕ, ◌+◌, ◌/◌, ◌==◌, if◌then◌else◌, arith, [], inl}
use dos_kernel.Storage.Ahci.{Hba, Port, Registers}
use dos_kernel.Storage.Ahci.Command.{build}
use dos_kernel.Storage.Ahci.Build.{Built, header_address, table_address, build-Built}

-- The command list starts the memory of the driver, and the first header links to the table at 0x3000.
abbrev linked : ℕ → ℕ
linked a = if a == 0x2009 then 0x30 else 0

abbrev hba : Hba
hba = record {
  mem = linked;
  offset = 0x2000;
  abars = [];
  infos = λ c p. record { type = 0; present = 0 };
  log = [];
}

abbrev zeros : Registers
zeros s port reg = 0

abbrev port_1 : Port
port_1 = record { abar = 0x9000; number = 1 }

build-Built_example :
    Built
      (header_address zeros port_1 0 hba)
      (table_address zeros port_1 0 hba)
      1
      0x35
      0x12345678
      40
      0x10000
      hba
      (build zeros port_1 0 ((40 + 15) / 16) 1 0x35 0x12345678 40 0x10000 hba)
build-Built_example =
    build-Built zeros port_1 0 1 0x35 0x12345678 40 0x10000 hba (omega arith) (omega arith)
      (omega arith) (omega arith) (omega arith) (omega arith) (inl (omega arith))
