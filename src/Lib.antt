-- ===== src/Lib.antt =====
-- Verification of the host programs of the QEMU test pipeline for OP-TEE's authenticated variables
-- and fTPM trusted applications (TAs).
--
-- The program. authvars_test/host is a Linux port of the UEFI variable driver and of its tests. The
-- driver (edk2_driver/AuthVarsDxe.c) offers GetVariable, GetNextVariableName, SetVariable and
-- QueryVariableInfo; each checks its arguments, lays a request out in a transport buffer, has the TA
-- answer into a second one by TEEC_InvokeCommand, and decodes the answer. edk2/ holds what the
-- driver needs of UEFI: types, status codes, memory helpers, and the conversion between the wide
-- strings of Linux and the 16-bit strings of the TA. main.c is the command line application,
-- edk2_test_harness/EdkTest.h the harness of the self tests. ftpm_test/host/main.c runs the self
-- test of the fTPM.
--
-- The files.
--   Base, Base/*       shared names, Boolean tests, lists, machine words, a law of `|`.
--   Outcome            how a C function ends: it returns, faults (an access outside an object, or
--                      through NULL), or exits (errx, ASSERT). `Returns` and `Safe` are about it.
--   Memory, Laws       objects as blocks of bytes; ZeroMem, CopyMem and SetMem (edk2/uefi_c.c).
--   Efi/*              status codes (by name in Efi/Status/Codes), GUIDs and CompareGuid, attributes
--                      (edk2/uefi_types.h, .c).
--   Support, Laws      StrSize and the byte swaps (edk2/uefi_c.c).
--   Wide, Laws,        FixWideString and RestoreWideString (edk2/linux_fixup.c).
--   Wide/RoundTrip
--   Driver/Layout      the transport structures (edk2_driver/UEFIVarServices.h) by the C rules of
--                      layout for 32-bit ARM.
--   Driver/Tee         the TEE client API as a parameter.
--   Driver/State       the driver's static variables, with the world behind the API.
--   Driver/Invoke      OpteeRuntimeVariableInvokeCommand.
--   Driver/Request     how the requests are filled in, and what they decode to.
--   Driver/Get, /Set,  the four services: definitions in the file, theorems in its children.
--   /GetNext, /Query
--   Driver/Session     TaOpenSession and OpteeRuntimeOnExitBootServices.
--   Driver/SecureBoot  InitSecureBootVariables and VariableAuthOpteeRuntimeInitialize.
--                      Names: its variables; Simulates: two kinds of services that answer alike.
--   Driver/Debug       BitsToChar, AuthVarHexDump and AuthVarFixBuffer, which nothing calls.
--   Pool               AllocatePool, AllocateZeroPool and ReallocatePool (edk2/uefi_c.c) over the
--                      allocator of the C library, a parameter.
--   Cli/*              the words of the command line, process_command and main (main.c), with `get`
--                      and `getnext` in front of a TA that holds the variable in the children of
--                      Cli/Command.
--   Verify, Laws       the exceptions and the VERIFY macros (edk2_test_harness/EdkTest.h). `Verified`
--                      says what is known where a piece of a test goes on, `Passes` (Verify/Passes)
--                      that it does; Macros says when each macro goes on.
--   Harness, Laws      registration and runs of tests (edk2_test_harness/EdkTest.h), and its timers in
--                      the child Timer, which take the value of clock() and its frequency as
--                      arguments.
--   Store              the variables as a client sees them: calls through gRT, and a store that
--                      answers them; Laws says when a TA keeps a store, Read, Write, Next and Query
--                      follow a call through the driver to it, Run a sequence of calls,
--                      Initialize the initialisation of the driver (SingleByte its reads and
--                      writes); Contract is the interface that the tests use.
--   Firmware           the four runtime services as an interface (edk2/uefi_globals.h), and the driver
--                      as one that offers them once it has been initialised.
--   AuthVarTest        the state, the buffers and the calls of the tests
--                      (edk2_variable_test/AuthVarTest.c), on any runtime services; its children:
--     /Compare         what VerifyAreEqualBytes verifies.
--     /Enumerate       VerifyVariableEnumerable; Strings, Catalog and Service follow it on a service
--                      that lists its variables in an order, OnDriver on the driver in front of a TA
--                      that does, Frame on the buffer it leaves alone.
--     /Check           SetAndCheckVariable, DeleteAndCheckVariable, VerifyValidVarWriteReadEnumDel;
--                      Calls, Laws, Read and Cycle say what each has verified, Passes where it goes
--                      on, Stored and Whole on services that keep a store, OnDriver on the driver.
--     /Persist         VerifyAppendShrinkReplacePersist.
--     /Names           VerifyNameHandling.
--     /Query           VerifyQuery.
--     /Overflow        VerifyOverflow.
--     /Blobs           TestValidAuthVars, TestInvalidAuthVars and TestValidNonVolatileVars.
--     /Main            ModuleSetup, TestSetup, TestCleanup and UefiMain.
--   Ftpm               ftpm_test/host/main.c.
--   Tests/*            a concrete TA and instances of the theorems.
--
-- Conventions. UINTN is 32 bits wide and wchar_t four bytes, as on the 32-bit ARM target; a sum of
-- sizes keeps its wrap-around, `u32`. A string that the program only reads is the list of its
-- characters before the terminator; memory that is written is a block. A pointer that may be NULL
-- is an Option. Objects of different arguments do not overlap. GetVariable returns the caller's
-- objects along with the status. `goto Exit` is the end of the function. What is only logged is left
-- out.
--
-- Loops. FixWideString and the copy in RestoreWideString recur on the string and on the count. The
-- search for a terminator runs on fuel, the length of its block: an access beyond the block is a
-- fault, so that many rounds always reach the end; the loop of get_guid runs on fuel in the same
-- way. The loop of GETNEXT in main.c takes its fuel as an argument, and says so when it runs out,
-- since its end depends on the TA; Cli/Command/GetNext says where fuel 2 is enough.
--
-- The endless loop of VerifyVariableEnumerable takes its rounds from the platform of the tests, and
-- ends as `running` when they are used up, since its end depends on the service;
-- AuthVarTest/Enumerate/Service says that more rounds than the service has variables are enough.
--
-- Tests. A piece of a test is a function on the state of the tests that goes on with a value,
-- throws (LongJump to the handler of RunTestFunc_), still runs, or ends as a C function does. The
-- operands of the VERIFY macros in the tests have the type that the macro converts them to. The
-- state has the three buffers of AuthVarTest.c, the number of random numbers drawn, and the
-- firmware; a pointer into a buffer is followed where it is used, so that a buffer may be compared
-- with itself. What an uninitialised local holds is a parameter. Memory that is freed is not
-- followed any further.
--
-- Not modelled: the TEE client API, the C library (allocation, rand, swprintf, sscanf, files) and
-- the binaries that the build links in, which are parameters; printing and log levels; the build
-- files and scripts.
pub mod Base
pub mod Outcome
pub mod Memory
pub mod Efi
pub mod Support
pub mod Wide
pub mod Pool
pub mod Verify
pub mod Driver
pub mod Cli
pub mod Harness
pub mod Firmware
pub mod Store
pub mod AuthVarTest
pub mod Ftpm
pub mod Tests
